-- ===== src/Policy/Ancestry.antt =====
-- pkg/policy/advanced.go: the walk up the process tree ends, whatever the files say.
use mathlib.Core.Bool.{false≢true}
use neurosentry.Common.{
  List, Option, Str, [], ap, arith, eq_iff, false, if_cases, if◌then◌else◌, int_eq, leb_ℤ, length,
  ltb_ℤ, ltb_ℤ→lt, nat_eq, none, not, pos, refl, some, str_eq, suc, sym, zero, ℕ, ℤ, ◌<ℤ◌, ◌==◌,
  ◌∙◌, ◌∷◌, ◌≡◌, ◌≢◌, ◌≤◌,
}
use neurosentry.Policy.Advanced.{chain_from, get_process_chain, read_parent}

-- Each process is named as the parent by the one before it, none comes after process 1, and all are
-- positive.
abbrev pub IsLineage : (ℤ → Option (List Str)) → List ℤ → Type 0
IsLineage status [] = Unit
IsLineage status (p ∷ []) = pos 0 <ℤ p
IsLineage status (p ∷ (q ∷ ps)) =
    (pos 0 <ℤ p) × (p ≢ pos 1) × (read_parent (status p) ≡ some q) × IsLineage status (q ∷ ps)

-- What a walk that begins at a process returns.
abbrev Walked : (ℤ → Option (List Str)) → ℕ → ℤ → List ℤ → Type 0
Walked status k pid [] = Unit
Walked status k pid (p ∷ ps) = (p ≡ pid) × IsLineage status (p ∷ ps) × (length (p ∷ ps) ≤ k)

Walked-cons :
    (status : ℤ → Option (List Str)) (k : ℕ) (pid parent : ℤ) (ps : List ℤ)
    → pos 0 <ℤ pid
    → pid ≢ pos 1
    → read_parent (status pid) ≡ some parent
    → Walked status k parent ps
    → Walked status (suc k) pid (pid ∷ ps)
Walked-cons status k pid parent [] above other_than named h = (refl, above, omega arith)
Walked-cons status k pid parent (q ∷ qs) above other_than named h =
    (refl, (above, other_than, named ∙ ap some (sym h.0), h.1), omega (arith, h.2))

chain_from-Walked :
    (status : ℤ → Option (List Str)) (k : ℕ) (pid : ℤ)
    → Walked status k pid (chain_from status k pid)
unfolding chain_from
chain_from-Walked status zero pid = tt
chain_from-Walked status (suc k) pid =
    if_cases (Walked status (suc k) pid) (not (ltb_ℤ (pos 0) pid)) _ _ (λ _. tt)
      λ above.
        if_cases (Walked status (suc k) pid) (pid == pos 1) _ _
          (λ _. (refl, positive above, omega arith))
          (λ differs.
            climb (read_parent (status pid)) refl (positive above)
              (λ e. false≢true (sym differs ∙ (eq_iff pid (pos 1)).1 e))
              (λ parent. chain_from-Walked status k parent))
  where
    positive : not (ltb_ℤ (pos 0) pid) ≡ false → pos 0 <ℤ pid
    positive h = ltb_ℤ→lt (pos 0) pid (ground arith)

    climb :
        (o : Option ℤ)
        → read_parent (status pid) ≡ o
        → pos 0 <ℤ pid
        → pid ≢ pos 1
        → ((parent : ℤ) → Walked status k parent (chain_from status k parent))
        → Walked status (suc k) pid (
            pid ∷ elim o [
              | none ↦ []
              | some parent ↦ if leb_ℤ parent (pos 0) then [] else chain_from status k parent
            ])
    climb none e above other_than ih = (refl, above, omega arith)
    climb (some parent) e above other_than ih =
        if_cases (λ ps. Walked status (suc k) pid (pid ∷ ps)) (leb_ℤ parent (pos 0)) _ _
          (λ _. (refl, above, omega arith))
          (λ _. Walked-cons status k pid parent _ above other_than e (ih parent))

Walked-bound :
    (status : ℤ → Option (List Str)) (k : ℕ) (pid : ℤ) (ps : List ℤ)
    → Walked status k pid ps
    → (length ps ≤ k) × IsLineage status ps
Walked-bound status k pid [] h = (omega arith, tt)
Walked-bound status k pid (p ∷ ps) h = (h.2, h.1)

-- Whatever the files under /proc say, also if they name each other in a circle, the walk returns at most
-- ten processes, all positive, each the parent that the file of the one before it names, and none after
-- process 1.
pub get_process_chain-IsLineage :
    (status : ℤ → Option (List Str)) (pid : ℤ)
    → (length (get_process_chain status pid) ≤ 10) × IsLineage status (get_process_chain status pid)
unfolding get_process_chain
get_process_chain-IsLineage status pid =
    Walked-bound status 10 pid _ (chain_from-Walked status 10 pid)
