-- ===== src/Guard/Luhn.antt =====
-- pkg/aiguard/dlp.go: the checksum of card numbers.
use mathlib.Core.List.{append_assoc}
use neurosentry.Common.{
  Bool, Bool-cases, List, Str, [], ap, arith, false, if_cases, inl, inr, int_eq, length, ltb,
  nat_beq_iff, nat_eq, not, refl, str_eq, sym, true, ℕ, ◌%◌, ◌++◌, ◌+◌, ◌<◌, ◌||◌, ◌∙◌, ◌∷◌, ◌≡◌,
  ◌≢◌,
}
use neurosentry.Guard.{digits_of, luhn_sum, luhn_valid, reversed, weighed}

luhn_sum-shift :
    (double : Bool) (sum k : ℕ) (ds : List ℕ)
    → luhn_sum double (sum + k) ds ≡ luhn_sum double sum ds + k
unfolding luhn_sum
luhn_sum-shift double sum k [] = refl
luhn_sum-shift double sum k (d ∷ ds) =
    ap (λ n. luhn_sum (not double) n ds) (swapped sum k (weighed double d))
    ∙ luhn_sum-shift (not double) (sum + weighed double d) k ds
  where
    swapped : (a b c : ℕ) → a + b + c ≡ a + c + b
    swapped a b c = omega arith

-- The sum as a function of one digit, the others fixed.
abbrev WeighsOnce : (ℕ → ℕ) → Type 0
WeighsOnce f = (double : Bool) × (base : ℕ) × ((d : ℕ) → f d ≡ base + weighed double d)

luhn_sum-WeighsOnce :
    (double : Bool) (sum : ℕ) (us vs : List ℕ)
    → WeighsOnce (λ d. luhn_sum double sum (us ++ d ∷ vs))
unfolding luhn_sum
luhn_sum-WeighsOnce double sum [] vs = (
  double,
  luhn_sum (not double) sum vs,
  λ d. luhn_sum-shift (not double) sum (weighed double d) vs,
)
luhn_sum-WeighsOnce double sum (u ∷ us) vs =
    luhn_sum-WeighsOnce (not double) (sum + weighed double u) us vs

reversed_onto : (acc ds : List ℕ) → reversed acc ds ≡ reversed [] ds ++ acc
reversed_onto acc [] = refl
reversed_onto acc (d ∷ ds) =
    reversed_onto (d ∷ acc) ds
    ∙ sym (
        ap (λ ks. ks ++ acc) (reversed_onto (d ∷ []) ds)
        ∙ append_assoc (reversed [] ds) (d ∷ []) acc)

reversed-append :
    (acc xs ys : List ℕ) (d : ℕ)
    → reversed acc (xs ++ d ∷ ys) ≡ reversed [] ys ++ d ∷ reversed acc xs
reversed-append acc [] ys d = reversed_onto (d ∷ acc) ys
reversed-append acc (x ∷ xs) ys d = reversed-append (x ∷ acc) xs ys d

-- Two different digits weigh differently modulo ten.
weighed_apart :
    (double : Bool) (base a b : ℕ)
    → a < 10
    → b < 10
    → (base + weighed double a) % 10 ≡ 0
    → (base + weighed double b) % 10 ≡ 0
    → a ≡ b
weighed_apart true base a b ha hb e f = ground arith
weighed_apart false base a b ha hb e f = omega arith

valid_sum :
    (s : Str) (ds : List ℕ)
    → digits_of s ≡ ds
    → luhn_valid s ≡ true
    → luhn_sum false 0 (reversed [] ds) % 10 ≡ 0
unfolding luhn_valid
valid_sum s ds e h =
    if_cases (λ (b : Bool). b ≡ true → luhn_sum false 0 (reversed [] ds) % 10 ≡ 0)
      (ltb (length (digits_of s)) 13 || ltb 19 (length (digits_of s))) _ _ (λ _ k. cc)
      (λ _ k. ap (λ ks. luhn_sum false 0 (reversed [] ks) % 10) (sym e) ∙ (nat_beq_iff _ 0).0 k) h

-- The check detects every single wrong digit: of two texts whose digits differ in exactly one place, at
-- most one passes as a card number.
pub luhn_valid_lem :
    (s t : Str) (xs ys : List ℕ) (a b : ℕ)
    → digits_of s ≡ xs ++ a ∷ ys
    → digits_of t ≡ xs ++ b ∷ ys
    → a < 10
    → b < 10
    → a ≢ b
    → luhn_valid s ≡ true
    → luhn_valid t ≡ false
luhn_valid_lem s t xs ys a b es et ha hb apart valid = elim (Bool-cases (luhn_valid t)) [
  | inr fails ↦ fails
  | inl passing ↦
      absurd (apart (equal (luhn_sum-WeighsOnce false 0 (reversed [] ys) (reversed [] xs)) passing))
]
  where
    equal :
        WeighsOnce (λ d. luhn_sum false 0 (reversed [] ys ++ d ∷ reversed [] xs))
        → luhn_valid t ≡ true
        → a ≡ b
    equal (double, base, weighs) passing =
        weighed_apart double base a b ha hb
          (ap (λ n. n % 10) (sym (weighs a)) ∙ placed a ∙ valid_sum s (xs ++ a ∷ ys) es valid)
          (ap (λ n. n % 10) (sym (weighs b)) ∙ placed b ∙ valid_sum t (xs ++ b ∷ ys) et passing)
      where
        placed :
            (d : ℕ)
            → luhn_sum false 0 (reversed [] ys ++ d ∷ reversed [] xs) % 10
              ≡ luhn_sum false 0 (reversed [] (xs ++ d ∷ ys)) % 10
        placed d = ap (λ ks. luhn_sum false 0 ks % 10) (sym (reversed-append [] xs ys d))
