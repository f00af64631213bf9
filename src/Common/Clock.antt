-- ===== src/Common/Clock.antt =====
-- Go's time.Time and time.Duration.
-- A Time is the number of nanoseconds since the zero Time (an integer that does not wrap: Go's
-- range is 292 billion years); a Duration is a signed 64-bit number of nanoseconds, and `Sub`
-- saturates at its ends as Go's does.
use Prim.Native.Nat.{ℕ, ◌≤◌, ◌<◌}
use mathlib.Core.Path.{◌≡◌, ◌∙◌}
use mathlib.Core.Bool.{Bool}
use native.Mathlib.Omega.{arith}
use neurosentry.Common.Tests.{leb, if◌then◌else◌}
use neurosentry.Common.Int.{ℤ, pos, negsuc, ◌+ℤ◌, ◌-ℤ◌, ltb_ℤ, leb_ℤ, int_beq, +ℤ_parts, -ℤ_parts}

abbrev pub Time : Type 0
Time = ℤ

abbrev pub Duration : Type 0
Duration = ℤ

abbrev pub second : ℕ
second = 1000000000

-- 2 ^ 63 - 1
abbrev pub max_int64 : ℕ
max_int64 = 9223372036854775807

abbrev pub saturate : ℤ → ℤ
saturate (pos n) = if leb n max_int64 then pos n else pos max_int64
saturate (negsuc n) = if leb n max_int64 then negsuc n else negsuc max_int64

-- t.Sub(u)
unfoldable pub sub : Time → Time → Duration
sub t u = saturate (t -ℤ u)

-- t.Before(u); t.After(u) is `before u t`
abbrev pub before : Time → Time → Bool
before t u = ltb_ℤ t u

-- t.IsZero()
abbrev pub is_zero : Time → Bool
is_zero t = int_beq t (pos 0)

saturate-lt : (d : ℤ) (w : ℕ) → w ≤ max_int64 → ltb_ℤ (saturate d) (pos w) ≡ ltb_ℤ d (pos w)
saturate-lt (pos n) w h = ground arith
saturate-lt (negsuc n) w h = ground arith

saturate-gt : (d : ℤ) (w : ℕ) → w < max_int64 → ltb_ℤ (pos w) (saturate d) ≡ ltb_ℤ (pos w) d
saturate-gt (pos n) w h = ground arith
saturate-gt (negsuc n) w h = ground arith

saturate-le : (d : ℤ) (w : ℕ) → w < max_int64 → leb_ℤ (saturate d) (pos w) ≡ leb_ℤ d (pos w)
saturate-le (pos n) w h = ground arith
saturate-le (negsuc n) w h = ground arith

diff-lt : (t u : Time) (w : ℕ) → ltb_ℤ (t -ℤ u) (pos w) ≡ before t (u +ℤ pos w)
diff-lt t u w = ground (arith, -ℤ_parts t u, +ℤ_parts u (pos w))

-- Against a window of the program's size, `Sub` behaves as exact subtraction.
pub sub-lt : (t u : Time) (w : ℕ) → w ≤ max_int64 → ltb_ℤ (sub t u) (pos w) ≡ before t (u +ℤ pos w)
unfolding sub
sub-lt t u w h = saturate-lt (t -ℤ u) w h ∙ diff-lt t u w

pub sub-gt : (t u : Time) (w : ℕ) → w < max_int64 → ltb_ℤ (pos w) (sub t u) ≡ before (u +ℤ pos w) t
unfolding sub
sub-gt t u w h = saturate-gt (t -ℤ u) w h ∙ ground (arith, -ℤ_parts t u, +ℤ_parts u (pos w))

pub sub-le : (t u : Time) (w : ℕ) → w < max_int64 → leb_ℤ (sub t u) (pos w) ≡ leb_ℤ t (u +ℤ pos w)
unfolding sub
sub-le t u w h = saturate-le (t -ℤ u) w h ∙ ground (arith, -ℤ_parts t u, +ℤ_parts u (pos w))

saturate-ge : (d : ℤ) (w : ℕ) → w ≤ max_int64 → leb_ℤ (pos w) (saturate d) ≡ leb_ℤ (pos w) d
saturate-ge (pos n) w h = ground arith
saturate-ge (negsuc n) w h = ground arith

pub sub-ge : (t u : Time) (w : ℕ) → w ≤ max_int64 → leb_ℤ (pos w) (sub t u) ≡ leb_ℤ (u +ℤ pos w) t
unfolding sub
sub-ge t u w h = saturate-ge (t -ℤ u) w h ∙ ground (arith, -ℤ_parts t u, +ℤ_parts u (pos w))
