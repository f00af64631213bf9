-- ===== src/Platform/Examples.antt =====
-- Concrete runs of pkg/platform.
use mathlib.Core.Bool.{false≢true}
use neurosentry.Common.{
  List, Str, [], arith, before, eq_iff, get, if◌then◌else◌, int_eq, leb, length, nat_eq, not, pos,
  refl, second, some, str, str_beq, str_eq, true, ◌*◌, ◌+ℤ◌, ◌+◌, ◌∷◌, ◌≡◌, ◌≢◌,
}
use neurosentry.Platform.LoginGuard.{AttemptRecord, LoginGuard, allowed, record_failure}
use neurosentry.Platform.LoginGuard.Lockout.{fail_all, late_failure_unlocks, lockout_exact}
use neurosentry.Platform.Rbac.{Role, can, new_principal}
use neurosentry.Platform.Rbac.Grants.{can-grants, grants}

abbrev ann : Str
ann = str "ann"

abbrev bob : Str
bob = str "bob"

abbrev acme : Str
acme = str "acme"

-- Two failures within ten seconds lock for a minute.
abbrev guard : LoginGuard
guard = record {
  records = [];
  max_failures = pos 2;
  window = pos (10 * second);
  lockout = pos (60 * second);
}

lockout_exact_example :
    (allowed (fail_all guard ann (pos second ∷ pos (2 * second) ∷ [])) (pos (3 * second)) ann).1 ≡ (
      if leb 2 (1 + length (pos (2 * second) ∷ []))
      then not (before (pos (3 * second)) (pos (2 * second) +ℤ pos (60 * second)))
      else true)
unfolding get ◌+ℤ◌
lockout_exact_example =
    lockout_exact guard ann (pos second) 2 (10 * second) refl refl (omega arith)
      (pos (2 * second) ∷ []) (pos (3 * second)) refl (omega arith) (omega arith, tt) (omega arith)

-- A guard that has locked ann out until 61 seconds.
abbrev locked_record : AttemptRecord
locked_record = record { failures = pos 2; window_start = pos 0; locked_until = pos (61 * second) }

abbrev locking : LoginGuard
locking = record guard { records = (ann, locked_record) ∷ [] }

late_failure_unlocks_example :
    (allowed (record_failure locking (pos (20 * second)) ann) (pos (20 * second)) ann).1 ≡ true
unfolding get str_beq ◌+ℤ◌
late_failure_unlocks_example =
    late_failure_unlocks locking (pos (20 * second)) ann locked_record (10 * second) refl refl
      (omega arith) (omega arith) (omega arith)

ann_not_bob : ann ≢ bob
unfolding str_beq
ann_not_bob e = false≢true ((eq_iff ann bob).1 e)

abbrev two_roles : List Role
two_roles = str "viewer" ∷ str "analyst" ∷ []

can-grants_example :
    can (some (new_principal ann acme [] two_roles)) (str "alerts:manage")
    ≡ grants two_roles (str "alerts:manage")
can-grants_example = can-grants ann acme [] two_roles (str "alerts:manage")
