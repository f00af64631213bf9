-- ===== src/SelfProtect.antt =====
-- pkg/selfprotect/selfprotect.go: the integrity guard over the agent's own files. What statOf reads of the
-- file system is an argument.
pub mod Drift
mod Examples
use neurosentry.Common.{
  Bool, List, Map, Option, Str, [], false, get, has, if◌then◌else◌, int_eq, is_empty, map, nat_eq,
  none, not, pos, put, some, str, str_eq, true, ℤ, ◌&&◌, ◌++◌, ◌==◌, ◌∷◌,
}

pub record FileState : Type 0 where
  pub path : Str
  pub hash : Str
  pub size : ℤ
  pub exists : Bool

pub record Tamper : Type 0 where
  pub path : Str
  pub reason : Str
  pub old_hash : Str
  pub new_hash : Str

pub record Guard : Type 0 where
  pub baseline : Map Str FileState
  pub order : List Str

-- os.Stat and hashFile on a path: `none` is an error; the size, and the hash if the file can be read.
abbrev pub FileSystem : Type 0
FileSystem = Str → Option (ℤ × Option Str)

-- statOf
pub stat_of : FileSystem → Str → FileState
stat_of fs path = elim (fs path) [
  | none ↦ record { path = path; hash = []; size = pos 0; exists = false }
  | some (size, none) ↦ record { path = path; hash = []; size = size; exists = true }
  | some (size, some h) ↦ record { path = path; hash = h; size = size; exists = true }
]

-- New
abbrev pub new : Guard
new = record { baseline = []; order = [] }

-- The body of the loop of Protect.
pub protect_path : FileSystem → Guard → Str → Guard
unfolding stat_of
protect_path fs g p = if is_empty p then g else record {
  baseline = put g.baseline p (stat_of fs p);
  order = if has g.baseline p then g.order else g.order ++ p ∷ [];
}

-- Protect
pub protect : FileSystem → Guard → List Str → Guard
unfolding protect_path
protect fs g [] = g
protect fs g (p ∷ ps) = protect fs (protect_path fs g p) ps

-- The zero FileState, for a path that is not in the map.
abbrev pub or_absent : Option FileState → FileState
or_absent none = record { path = []; hash = []; size = pos 0; exists = false }
or_absent (some s) = s

-- The switch of Verify, for a path with its baseline and its present state.
pub tamper_of : Str → FileState → FileState → Option Tamper
tamper_of p base cur =
    if base.exists && not cur.exists
    then some (record { path = p; reason = str "removed"; old_hash = base.hash; new_hash = [] })
    else if base.exists && is_empty cur.hash
    then some (record { path = p; reason = str "unreadable"; old_hash = base.hash; new_hash = [] })
    else if base.exists && not (cur.hash == base.hash)
    then some
        (record { path = p; reason = str "modified"; old_hash = base.hash; new_hash = cur.hash })
    else none

abbrev pub cons_some : Option Tamper → List Tamper → List Tamper
cons_some none ts = ts
cons_some (some t) ts = t ∷ ts

-- The loop of Verify.
pub verify_paths : FileSystem → Guard → List Str → List Tamper
unfolding stat_of tamper_of
verify_paths fs g [] = []
verify_paths fs g (p ∷ ps) =
    cons_some (tamper_of p (or_absent (get g.baseline p)) (stat_of fs p)) (verify_paths fs g ps)

-- Verify, which leaves the guard as it is.
pub verify : FileSystem → Guard → List Tamper
unfolding verify_paths
verify fs g = verify_paths fs g g.order

-- Baseline
baseline_states : Guard → List FileState
baseline_states g = map (λ p. or_absent (get g.baseline p)) g.order
