-- ===== src/Common/Text.antt =====
-- Go strings, as lists of bytes: literals, `strconv`-like printing, prefixes.
-- `itoa` is pkg/breaker/breaker.go's; pkg/correlate/correlate.go has the same function again.
use Prim.Native.Nat.{ℕ, zero, suc, ◌+◌, ◌/◌, ◌%◌}
use Prim.Native.Char.{code}
use Prim.Native.String.{String}
use mathlib.Core.Path.{◌≡◌, refl}
use mathlib.Core.Bool.{Bool, true, false}
use mathlib.Core.List.{List, [], ◌∷◌, ◌++◌}
use neurosentry.Common.Tests.{if◌then◌else◌, ltb, nat_beq}
use neurosentry.Common.Int.{ℤ, pos, negsuc}
use neurosentry.Common.Clock.{max_int64}

abbrev pub Str : Type 0
Str = List ℕ

-- The bytes of an ASCII literal.
abbrev pub str : String → Str
str String.[] = []
str (String.◌∷◌ c s) = code c ∷ str s

abbrev pub is_empty : Str → Bool
is_empty [] = true
is_empty (c ∷ s) = false

-- `for i > 0 { pos--; b[pos] = byte('0' + i%10); i /= 10 }`: `out` is b[pos:].
-- The fuel is the number of bytes left in the buffer; `atoi-itoa` of Itoa.antt shows that it suffices.
unfoldable pub itoa_loop : ℕ → ℕ → Str → Str
itoa_loop zero i out = out
itoa_loop (suc f) i out =
    let more = itoa_loop f (i / 10) ((b'0' + i % 10) ∷ out) in if ltb 0 i then more else out

-- `i = -i` on a 64-bit int: the smallest int is its own negation, so the loop does not run on it.
unfoldable pub itoa : ℤ → Str
unfolding itoa_loop
itoa (pos zero) = b'0' ∷ []
itoa (pos (suc n)) = itoa_loop 20 (suc n) []
itoa (negsuc n) = b'-' ∷ (if nat_beq n max_int64 then [] else itoa_loop 20 (suc n) [])

-- fireKey: itoa(pid) + ":" + rule. The breaker writes the same expression for its own keys.
unfoldable pub fire_key : ℤ → Str → Str
fire_key pid rule = itoa pid ++ b':' ∷ rule

itoa_test : itoa (pos 4071) ++ itoa (negsuc 14) ≡ str "4071-15"
unfolding itoa
itoa_test = refl
