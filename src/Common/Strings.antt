-- ===== src/Common/Strings.antt =====
-- What the program uses of Go's package strings, on bytes. Case and white space are ASCII's.
use Prim.Native.Nat.{ℕ, ◌+◌, ◌-◌, ◌*◌}
use mathlib.Core.Bool.{Bool, true, false, ◌&&◌, ◌||◌}
use mathlib.Core.Option.{Option, none, some}
use mathlib.Core.List.{List, [], ◌∷◌}
use neurosentry.Common.Tests.{if◌then◌else◌, leb, nat_beq, ◌==◌, str_eq}
use neurosentry.Common.Lists.{drop, length, take}
use neurosentry.Common.Text.{Str, is_empty}
use neurosentry.Common.Maps.{is_some}
use neurosentry.Common.Int.{ℤ, pos, neg}
use neurosentry.Common.Clock.{max_int64}

-- strings.HasPrefix
unfoldable pub has_prefix : Str → Str → Bool
has_prefix s [] = true
has_prefix [] (p ∷ ps) = false
has_prefix (c ∷ s) (p ∷ ps) = nat_beq c p && has_prefix s ps

-- strings.HasSuffix
unfoldable pub has_suffix : Str → Str → Bool
has_suffix s x = leb (length x) (length s) && drop (length s - length x) s == x

-- strings.TrimPrefix
unfoldable pub trim_prefix : Str → Str → Str
unfolding has_prefix
trim_prefix s p = if has_prefix s p then drop (length p) s else s

-- strings.TrimSuffix
unfoldable pub trim_suffix : Str → Str → Str
unfolding has_suffix
trim_suffix s x = if has_suffix s x then take (length s - length x) s else s

abbrev pub one_later : Option ℕ → Option ℕ
one_later none = none
one_later (some i) = some (i + 1)

-- strings.Index; `none` for -1.
unfoldable pub index : Str → Str → Option ℕ
unfolding has_prefix
index [] p = if is_empty p then some 0 else none
index (c ∷ s) p = let rest = index s p in if has_prefix (c ∷ s) p then some 0 else one_later rest

-- strings.Contains
unfoldable pub contains : Str → Str → Bool
unfolding index
contains s p = is_some (index s p)

-- strings.Split by one byte: the first part, and the others.
unfoldable pub split_byte : ℕ → Str → Str × List Str
split_byte b [] = ([], [])
split_byte b (c ∷ s) =
    let rest = split_byte b s in if nat_beq c b then ([], rest.0 ∷ rest.1) else (c ∷ rest.0, rest.1)

abbrev pub parts : Str × List Str → List Str
parts p = p.0 ∷ p.1

-- strings.ToLower, on ASCII.
abbrev pub lower_byte : ℕ → ℕ
lower_byte c = if leb b'A' c && leb c b'Z' then c + 32 else c

unfoldable pub to_lower : Str → Str
to_lower [] = []
to_lower (c ∷ s) = lower_byte c ∷ to_lower s

-- The white space of ASCII: tab, newline, vertical tab, form feed, carriage return and space.
abbrev pub is_space : ℕ → Bool
is_space c = (leb 9 c && leb c 13) || nat_beq c b' '

-- strings.TrimLeft and TrimRight by a test on bytes.
unfoldable pub trim_left : (ℕ → Bool) → Str → Str
trim_left p [] = []
trim_left p (c ∷ s) = let rest = trim_left p s in if p c then rest else c ∷ s

unfoldable pub trim_right : (ℕ → Bool) → Str → Str
trim_right p [] = []
trim_right p (c ∷ s) = let rest = trim_right p s in if p c && is_empty rest then [] else c ∷ rest

-- strings.TrimSpace
unfoldable pub trim_space : Str → Str
unfolding trim_left trim_right
trim_space s = trim_right is_space (trim_left is_space s)

abbrev pub cons_word : Str → List Str → List Str
cons_word [] ws = ws
cons_word (c ∷ w) ws = (c ∷ w) ∷ ws

-- The word that the text starts with, and the words after it.
unfoldable pub split_words : Str → Str × List Str
split_words [] = ([], [])
split_words (c ∷ s) =
    let rest = split_words s in
    if is_space c then ([], cons_word rest.0 rest.1) else (c ∷ rest.0, rest.1)

-- strings.Fields
unfoldable pub words : Str → List Str
unfolding split_words
words s = cons_word (split_words s).0 (split_words s).1

unfoldable pub digits : ℕ → Str → Option ℕ
digits n [] = some n
digits n (c ∷ s) =
    let rest = digits (n * 10 + (c - b'0')) s in if leb b'0' c && leb c b'9' then rest else none

-- An integer of a sign and a magnitude that must fit 64 bits.
abbrev pub signed : Bool → Option ℕ → Option ℤ
signed negative none = none
signed negative (some n) =
    if negative
    then (if leb n (max_int64 + 1) then some (neg (pos n)) else none)
    else if leb n max_int64
    then some (pos n)
    else none

abbrev pub magnitude : Str → Option ℕ
magnitude s = if is_empty s then none else digits 0 s

-- strconv.Atoi; `none` for its errors.
unfoldable pub parse_int : Str → Option ℤ
unfolding digits
parse_int [] = none
parse_int (c ∷ s) =
    if nat_beq c b'-'
    then signed true (magnitude s)
    else if nat_beq c b'+'
    then signed false (magnitude s)
    else signed false (magnitude (c ∷ s))
