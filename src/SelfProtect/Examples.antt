-- ===== src/SelfProtect/Examples.antt =====
-- A concrete run of pkg/selfprotect.
use neurosentry.Common.{
  Str, [], any, int_eq, is_empty, nat_eq, not, pos, some, str, str_eq, ◌&&◌, ◌==◌, ◌∷◌, ◌≡◌,
}
use neurosentry.SelfProtect.{FileSystem, new, protect, stat_of, verify}
use neurosentry.SelfProtect.Drift.{is_drift, reports, verify-protect}

abbrev agent : Str
agent = str "/usr/bin/agent"

-- Every file has one hash.
abbrev all_files : Str → FileSystem
all_files h path = some (pos 1, some h)

verify-protect_example :
    reports (verify (all_files (str "b")) (protect (all_files (str "a")) new (agent ∷ []))) agent
    ≡ ((any (λ q. q == agent) (agent ∷ []) && not (is_empty agent))
        && is_drift (stat_of (all_files (str "a")) agent) (stat_of (all_files (str "b")) agent))
verify-protect_example =
    verify-protect (all_files (str "a")) (all_files (str "b")) (agent ∷ []) agent
