-- ===== src/Incident/Order.antt =====
-- pkg/incident/incident.go: the references that a store lists follow each other.
use mathlib.Core.List.{Mem, mem-cons_of_mem, mem-cons_self}
use neurosentry.Common.{
  All, Bool-cases, List, [], ap, arith, eq_iff, inl, inr, int_eq, length, nat_eq, refl, str_eq,
  subst, suc, zero, ℕ, ◌++◌, ◌+◌, ◌<◌, ◌==◌, ◌∙◌, ◌∷◌, ◌≡◌, ◌≤◌,
}
use neurosentry.Incident.{Ref}

-- `n` references from `k` on.
unfoldable pub refs : Ref → ℕ → List Ref
refs k zero = []
refs k (suc n) = k ∷ refs (suc k) n

pub length-refs : (k : Ref) (n : ℕ) → length (refs k n) ≡ n
unfolding refs
length-refs k zero = refl
length-refs k (suc n) = ap suc (length-refs (suc k) n)

pub refs-snoc : (k : Ref) (n : ℕ) → refs k n ++ (k + n) ∷ [] ≡ refs k (suc n)
unfolding refs
refs-snoc k zero = ap (λ (q : Ref). q ∷ []) (omega arith)
refs-snoc k (suc n) =
    ap (λ (rs : List Ref). k ∷ rs)
      (ap (λ (q : Ref). refs (suc k) n ++ q ∷ []) (omega arith) ∙ refs-snoc (suc k) n)

pub Mem-refs : (k : Ref) (n : ℕ) (q : Ref) → k ≤ q → q < k + n → Mem q (refs k n)
unfolding refs
Mem-refs k zero q low high = absurd (omega arith)
Mem-refs k (suc n) q low high = elim (Bool-cases (k == q)) [
  | inl same ↦ subst (λ p. Mem p (k ∷ refs (suc k) n)) ((eq_iff k q).0 same) mem-cons_self
  | inr differs ↦
      mem-cons_of_mem k
        (Mem-refs (suc k) n q (ground (arith, eq_iff k q, differs, low)) (omega (arith, high)))
]

pub All-refs : (k : Ref) (n : ℕ) (q : Ref) → q < k → All (λ r. q < r) (refs k n)
unfolding refs
All-refs k zero q below = tt
All-refs k (suc n) q below = (below, All-refs (suc k) n q (omega arith))
