-- ===== src/Common/Maps.antt =====
-- Go maps as association lists with one entry for each key. A Go map is iterated in any order: the
-- order of the list stands for the one that the run time picks.
use Prim.Native.Nat.{◌+◌, ◌≤◌, ◌<◌}
use mathlib.Core.Path.{◌≡◌, refl, sym, ap, ◌∙◌}
use mathlib.Core.Logic.{◌⊎◌, inl, inr}
use mathlib.Core.Bool.{Bool, true, false, ◌||◌, false≢true}
use mathlib.Core.Option.{Option, none, some}
use mathlib.Core.List.{List, [], ◌∷◌}
use native.Mathlib.Omega.{arith}
use neurosentry.Common.Tests.{
  if◌then◌else◌, Comparable, ◌==◌, eq_iff, eq_refl, Bool-cases, if_cases,
}
use neurosentry.Common.Lists.{length, All, All-imp}

abbrev pub Map {ℓ κ} : Type ℓ → Type κ → Type (ℓ ⊔ κ)
Map K V = List (K × V)

abbrev pub is_some {ℓ} : {A : Type ℓ} → Option A → Bool
is_some none = false
is_some (some a) = true

module _ {ℓ κ} {K : Type ℓ} {V : Type κ} ⦃e : Comparable K⦄ where
  -- v, ok := m[k]
  unfoldable pub get : Map K V → K → Option V
  get [] k = none
  get ((j, v) ∷ m) k = if j == k then some v else get m k

  -- m[k] = v
  unfoldable pub put : Map K V → K → V → Map K V
  put [] k v = (k, v) ∷ []
  put ((j, w) ∷ m) k v = if j == k then (j, v) ∷ m else (j, w) ∷ put m k v

  -- delete(m, k)
  unfoldable pub delete : Map K V → K → Map K V
  delete [] k = []
  delete ((j, w) ∷ m) k = let rest = delete m k in if j == k then rest else (j, w) ∷ rest

  -- for k, v := range m { if !keep(k, v) { delete(m, k) } }
  unfoldable pub retain : (K → V → Bool) → Map K V → Map K V
  retain p [] = []
  retain p ((j, w) ∷ m) = let rest = retain p m in if p j w then (j, w) ∷ rest else rest

  pub get-put :
      (m : Map K V) (k j : K) (v : V) → get (put m k v) j ≡ (if k == j then some v else get m j)
  unfolding get put
  get-put [] k j v = refl
  get-put ((i, w) ∷ m) k j v = elim (Bool-cases (i == k)) [
    | inl hit ↦ rw ((eq_iff i k).0 hit, eq_refl k) (ground arith)
    | inr miss ↦ rw miss (ground (arith, get-put m k j v, eq_iff i k, eq_iff i j, eq_iff k j))
  ]

  pub get-delete : (m : Map K V) (k j : K) → get (delete m k) j ≡ (if k == j then none else get m j)
  unfolding get delete
  get-delete [] k j = ground arith
  get-delete ((i, w) ∷ m) k j = ground (arith, get-delete m k j, eq_iff i k, eq_iff i j, eq_iff k j)

  -- What is found after a write is what was written, or it was there before under another key.
  pub found-put :
      (m : Map K V) (k j : K) (v w : V)
      → get (put m k v) j ≡ some w
      → ((k ≡ j) × (v ≡ w)) ⊎ (((k == j) ≡ false) × (get m j ≡ some w))
  found-put m k j v w h =
      if_cases
        (λ (o : Option V).
          o ≡ some w → ((k ≡ j) × (v ≡ w)) ⊎ (((k == j) ≡ false) × (get m j ≡ some w)))
        (k == j) _ _ (λ hit e. inl ((eq_iff k j).0 hit, of_some e)) (λ miss e. inr (miss, e))
        (sym (get-put m k j v) ∙ h)
    where
      of_some : some v ≡ some w → v ≡ w
      of_some e = cc

  -- What is found after a removal was there before, under another key.
  pub found-delete :
      (m : Map K V) (k j : K) (w : V)
      → get (delete m k) j ≡ some w
      → ((k == j) ≡ false) × (get m j ≡ some w)
  found-delete m k j w h =
      if_cases (λ (o : Option V). o ≡ some w → ((k == j) ≡ false) × (get m j ≡ some w)) (k == j) _ _
        (λ hit e. cc) (λ miss e. (miss, e)) (sym (get-delete m k j) ∙ h)

  pub get-put-same : (m : Map K V) (k : K) (v : V) → get (put m k v) k ≡ some v
  get-put-same m k v = rw (get-put, eq_refl k) refl

  pub get-put-other :
      (m : Map K V) (k j : K) (v : V) → (k == j) ≡ false → get (put m k v) j ≡ get m j
  get-put-other m k j v h = rw (get-put, h) refl

  pub get-delete-other : (m : Map K V) (k j : K) → (k == j) ≡ false → get (delete m k) j ≡ get m j
  get-delete-other m k j h = rw (get-delete, h) refl

  -- _, ok := m[k]
  abbrev pub has : Map K V → K → Bool
  has m k = is_some (get m k)

  pub has-put : (m : Map K V) (k j : K) (v : V) → has (put m k v) j ≡ k == j || has m j
  has-put m k j v = ap is_some (get-put m k j v) ∙ split (k == j)
    where
      split : (b : Bool) → is_some (if b then some v else get m j) ≡ b || has m j
      split true = refl
      split false = refl

  pub length-put :
      (m : Map K V) (k : K) (v : V)
      → length (put m k v) ≡ (if has m k then length m else length m + 1)
  unfolding get put
  length-put [] k v = omega arith
  length-put ((j, w) ∷ m) k v = ground (arith, length-put m k v)

  pub length-delete-le : (m : Map K V) (k : K) → length (delete m k) ≤ length m
  unfolding delete
  length-delete-le [] k = omega arith
  length-delete-le ((j, w) ∷ m) k = ground (arith, length-delete-le m k)

  pub length-delete-lt : (m : Map K V) (k : K) → has m k ≡ true → length (delete m k) < length m
  unfolding delete get
  length-delete-lt [] k h = absurd (false≢true h)
  length-delete-lt ((j, w) ∷ m) k h = ground (arith, length-delete-lt m k, length-delete-le m k)

  -- Every entry's key is in the map.
  pub entries-has : (m : Map K V) → All (λ x. has m x.0 ≡ true) m
  unfolding get
  entries-has [] = tt
  entries-has ((j, w) ∷ m) = (rw (eq_refl j) refl, All-imp m (λ x h. older x.0 h) (entries-has m))
    where
      older : (k : K) → has m k ≡ true → has ((j, w) ∷ m) k ≡ true
      older k h = if_cases (λ (o : Option V). is_some o ≡ true) (j == k) _ _ (λ _. refl) (λ _. h)

  pub length-retain-le : (p : K → V → Bool) (m : Map K V) → length (retain p m) ≤ length m
  unfolding retain
  length-retain-le p [] = omega arith
  length-retain-le p ((j, w) ∷ m) = ground (arith, length-retain-le p m)

  -- No key has two entries.
  abbrev pub IsUnique : Map K V → Type κ
  IsUnique [] = Unit
  IsUnique ((j, w) ∷ m) = (get m j ≡ none) × IsUnique m

  pub put-IsUnique : (m : Map K V) (k : K) (v : V) → IsUnique m → IsUnique (put m k v)
  unfolding put get
  put-IsUnique [] k v u = (refl, tt)
  put-IsUnique ((j, w) ∷ m) k v u = elim (Bool-cases (j == k)) [
    | inl hit ↦ rw hit u
    | inr miss ↦
        rw miss (rw get-put (ground (arith, eq_iff j k, eq_iff k j)), put-IsUnique m k v u.1)
  ]

  get-delete-none : (m : Map K V) (k j : K) → get m j ≡ none → get (delete m k) j ≡ none
  get-delete-none m k j h = ground (arith, get-delete m k j)

  pub delete-IsUnique : (m : Map K V) (k : K) → IsUnique m → IsUnique (delete m k)
  unfolding delete
  delete-IsUnique [] k u = u
  delete-IsUnique ((j, w) ∷ m) k u = elim (Bool-cases (j == k)) [
    | inl hit ↦ rw hit (delete-IsUnique m k u.1)
    | inr miss ↦ rw miss (get-delete-none m k j u.0, delete-IsUnique m k u.1)
  ]

  get-retain-none :
      (p : K → V → Bool) (m : Map K V) (k : K) → get m k ≡ none → get (retain p m) k ≡ none
  unfolding get retain
  get-retain-none p [] k h = refl
  get-retain-none p ((j, w) ∷ m) k h = ground (arith, get-retain-none p m k)

  pub retain-IsUnique : (p : K → V → Bool) (m : Map K V) → IsUnique m → IsUnique (retain p m)
  unfolding retain
  retain-IsUnique p [] u = u
  retain-IsUnique p ((j, w) ∷ m) u = elim (Bool-cases (p j w)) [
    | inl hit ↦ rw hit (get-retain-none p m j u.0, retain-IsUnique p m u.1)
    | inr miss ↦ rw miss (retain-IsUnique p m u.1)
  ]

  abbrev pub kept : (K → V → Bool) → K → Option V → Option V
  kept p k none = none
  kept p k (some v) = if p k v then some v else none

  pub get-retain :
      (p : K → V → Bool) (m : Map K V) (k : K)
      → IsUnique m
      → get (retain p m) k ≡ kept p k (get m k)
  unfolding get retain
  get-retain p [] k u = refl
  get-retain p ((j, w) ∷ m) k u = elim (Bool-cases (j == k)) [
    | inl hit ↦
        let gone : get m k ≡ none = rw ((eq_iff j k).0 hit) at u.0 in
        rw ((eq_iff j k).0 hit, eq_refl k) (ground (arith, gone, get-retain-none p m k, eq_refl k))
    | inr miss ↦ rw miss (ground (arith, get-retain p m k u.1))
  ]

pub ruleset map_laws = (get-put, get-delete)
