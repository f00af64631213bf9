-- ===== src/Common/Itoa.antt =====
-- The decimal printing of `itoa`, and the "pid:name" keys that the program builds with it.
use Prim.Native.Nat.{ℕ, zero, suc, ◌+◌, ◌-◌, ◌*◌, ◌/◌, ◌%◌, ◌≤◌, ◌<◌, ◌^◌}
use mathlib.Core.Path.{◌≡◌, refl, ap, ap₂, sym, ◌∙◌}
use mathlib.Core.Logic.{◌≢◌, inl, inr}
use mathlib.Core.Bool.{false}
use mathlib.Core.List.{[], ◌∷◌, ◌++◌}
use native.Mathlib.Omega.{arith}
use native.Mathlib.Nat.{pow-suc}
use neurosentry.Common.Tests.{if◌then◌else◌, ltb, nat_beq, Bool-cases}
use neurosentry.Common.Lists.{All, length}
use neurosentry.Common.Int.{ℤ, pos, negsuc, neg, IsInt64}
use neurosentry.Common.Clock.{max_int64}
use neurosentry.Common.Text.{Str, itoa_loop, itoa, fire_key}

-- The number that decimal digits denote, most significant first.
abbrev pub value : ℕ → Str → ℕ
value acc [] = acc
value acc (c ∷ s) = value (acc * 10 + (c - b'0')) s

-- The integer that a signed decimal denotes.
abbrev pub atoi : Str → ℤ
atoi [] = pos 0
atoi (c ∷ s) = if nat_beq c b'-' then neg (pos (value 0 s)) else pos (value 0 (c ∷ s))

digit_step : (f i : ℕ) → i < 10 ^ suc f → i / 10 < 10 ^ f
digit_step f i h = omega (arith, pow-suc 10 f)

value-itoa_loop : (f i : ℕ) (out : Str) → i < 10 ^ f → value 0 (itoa_loop f i out) ≡ value i out
unfolding itoa_loop
value-itoa_loop zero zero out h = refl
value-itoa_loop zero (suc i) out h = absurd (omega arith)
value-itoa_loop (suc f) i out h = elim (Bool-cases (ltb 0 i)) [
  | inl more ↦ rw more (
      value-itoa_loop f (i / 10) ((b'0' + i % 10) ∷ out) (digit_step f i h)
      ∙ ap (λ n. value n out) (omega arith))
  | inr done ↦ rw done (ap (λ n. value n out) (ground arith))
]

abbrev IsDigit : ℕ → Type 0
IsDigit c = (b'0' ≤ c) × (c ≤ b'9')

itoa_loop-IsDigit : (f i : ℕ) (out : Str) → All IsDigit out → All IsDigit (itoa_loop f i out)
unfolding itoa_loop
itoa_loop-IsDigit zero i out h = h
itoa_loop-IsDigit (suc f) i out h = elim (Bool-cases (ltb 0 i)) [
  | inl more ↦ rw more (itoa_loop-IsDigit f (i / 10) _ ((omega arith, omega arith), h))
  | inr done ↦ rw done h
]

atoi_digits : (s : Str) (n : ℕ) → All IsDigit s → value 0 s ≡ n → atoi s ≡ pos n
atoi_digits [] n d h = ap pos h
atoi_digits (c ∷ s) n d h = ground (arith, h)

-- Printing is undone by reading, on every 64-bit int but the smallest, which prints as "-".
pub atoi-itoa_pos : (n : ℕ) → n ≤ max_int64 → atoi (itoa (pos n)) ≡ pos n
unfolding itoa
atoi-itoa_pos zero h = refl
atoi-itoa_pos (suc n) h =
    atoi_digits (itoa_loop 20 (suc n) []) (suc n) (itoa_loop-IsDigit 20 (suc n) [] tt)
      (value-itoa_loop 20 (suc n) [] (omega arith))

pub atoi-itoa_neg : (n : ℕ) → n < max_int64 → atoi (itoa (negsuc n)) ≡ negsuc n
unfolding itoa
atoi-itoa_neg n h = rw (differ n h, value-itoa_loop 20 (suc n) [] (omega arith)) (ground arith)
  where
    differ : (n : ℕ) → n < max_int64 → nat_beq n max_int64 ≡ false
    differ n h = ground arith

-- Every 64-bit int but the smallest.
abbrev pub IsPrintable : ℤ → Type 0
IsPrintable (pos n) = n ≤ max_int64
IsPrintable (negsuc n) = n < max_int64

-- Every 64-bit int but the smallest prints as the decimal that denotes it.
pub atoi-itoa : (z : ℤ) → IsPrintable z → atoi (itoa z) ≡ z
atoi-itoa (pos n) h = atoi-itoa_pos n h
atoi-itoa (negsuc n) h = atoi-itoa_neg n h

abbrev NotColon : ℕ → Type 0
NotColon c = c ≢ b':'

digits-NotColon : (s : Str) → All IsDigit s → All NotColon s
digits-NotColon [] h = tt
digits-NotColon (c ∷ s) h = (omega arith, digits-NotColon s h.1)

itoa-NotColon : (z : ℤ) → All NotColon (itoa z)
unfolding itoa
itoa-NotColon (pos zero) = (omega arith, tt)
itoa-NotColon (pos (suc n)) =
    digits-NotColon (itoa_loop 20 (suc n) []) (itoa_loop-IsDigit 20 (suc n) [] tt)
itoa-NotColon (negsuc n) = elim (Bool-cases (nat_beq n max_int64)) [
  | inl e ↦ rw e (omega arith, tt)
  | inr e ↦
      rw e (
        omega arith,
        digits-NotColon (itoa_loop 20 (suc n) []) (itoa_loop-IsDigit 20 (suc n) [] tt),
      )
]

split_colon :
    (s t x y : Str)
    → All NotColon s
    → All NotColon t
    → s ++ b':' ∷ x ≡ t ++ b':' ∷ y
    → (s ≡ t) × (x ≡ y)
split_colon [] [] x y h k e = (refl, cc)
split_colon [] (c ∷ t) x y h k e = absurd (k.0 (cc))
split_colon (c ∷ s) [] x y h k e = absurd (h.0 (cc))
split_colon (c ∷ s) (d ∷ t) x y h k e =
    let rest = split_colon s t x y h.1 k.1 (cc) in (ap₂ ◌∷◌ (cc) rest.0, rest.1)

-- Two keys are equal only if both their parts are.
pub fire_key_injective :
    (a b : ℤ) (x y : Str)
    → IsPrintable a
    → IsPrintable b
    → fire_key a x ≡ fire_key b y
    → (a ≡ b) × (x ≡ y)
unfolding fire_key
fire_key_injective a b x y h k e =
    let parts = split_colon (itoa a) (itoa b) x y (itoa-NotColon a) (itoa-NotColon b) e in
    (sym (atoi-itoa a h) ∙ ap atoi parts.0 ∙ atoi-itoa b k, parts.1)

length-itoa_loop :
    (f k i : ℕ) (out : Str) → i < 10 ^ k → length (itoa_loop f i out) ≤ k + length out
unfolding itoa_loop
length-itoa_loop zero k i out h = omega arith
length-itoa_loop (suc f) k zero out h = omega arith
length-itoa_loop (suc f) zero (suc i) out h = absurd (omega arith)
length-itoa_loop (suc f) (suc k) (suc i) out h = ground (
  arith,
  digit_step k (suc i) h,
  length-itoa_loop f k (suc i / 10) ((b'0' + suc i % 10) ∷ out) (digit_step k (suc i) h),
)

-- Every 64-bit int prints into the 20 bytes that `itoa` reserves.
pub length-itoa : (z : ℤ) → IsInt64 z → length (itoa z) ≤ 20
unfolding itoa
length-itoa (pos zero) h = omega arith
length-itoa (pos (suc n)) h = omega (arith, length-itoa_loop 20 19 (suc n) [] (omega arith))
length-itoa (negsuc n) h = ground (arith, length-itoa_loop 20 19 (suc n) [] (omega arith))

-- Whatever the ints, equal keys have equal names.
pub fire_key_name : (a b : ℤ) (x y : Str) → fire_key a x ≡ fire_key b y → x ≡ y
unfolding fire_key
fire_key_name a b x y e =
    (split_colon (itoa a) (itoa b) x y (itoa-NotColon a) (itoa-NotColon b) e).1
