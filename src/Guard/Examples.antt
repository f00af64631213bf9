-- ===== src/Guard/Examples.antt =====
-- Concrete runs of pkg/aiguard/dlp.go.
use neurosentry.Common.{
  List, Str, [], any, arith, false, int_eq, nat_eq, refl, some, str, str_eq, true, ℕ, ◌++◌, ◌∷◌,
  ◌≡◌,
}
use neurosentry.Guard.{DlpPattern, SecretScanner, any_leaked, digits_of, luhn_sum, luhn_valid, scan}
use neurosentry.Guard.Luhn.{luhn_valid_lem}
use neurosentry.Guard.Inline.{any_leaked_misses}

abbrev card : Str
card = str "4111 1111 1111 1111"

abbrev mistyped : Str
mistyped = str "4111 1111 1111 1112"

card_run : luhn_valid card ≡ true
unfolding luhn_valid digits_of luhn_sum
card_run = refl

abbrev but_last : List ℕ
but_last = 4 ∷ 1 ∷ 1 ∷ 1 ∷ 1 ∷ 1 ∷ 1 ∷ 1 ∷ 1 ∷ 1 ∷ 1 ∷ 1 ∷ 1 ∷ 1 ∷ 1 ∷ []

card_digits : digits_of card ≡ but_last ++ 1 ∷ []
unfolding digits_of
card_digits = refl

mistyped_digits : digits_of mistyped ≡ but_last ++ 2 ∷ []
unfolding digits_of
mistyped_digits = refl

luhn_valid_lem_example : luhn_valid mistyped ≡ false
luhn_valid_lem_example =
    luhn_valid_lem card mistyped but_last [] 1 2 card_digits mistyped_digits (omega arith)
      (omega arith) (λ e. absurd (omega (arith, e))) card_run

-- A pattern that finds the two numbers, whatever the text.
abbrev two_cards : DlpPattern
two_cards = record {
  typ = str "credit_card";
  find_all = λ text. mistyped ∷ card ∷ [];
  validate = some luhn_valid;
}

mistyped_run : luhn_valid mistyped ≡ false
unfolding luhn_valid digits_of luhn_sum
mistyped_run = refl

later_run : any luhn_valid (card ∷ []) ≡ true
later_run = rw card_run refl

any_leaked_misses_example :
    (any_leaked (record { patterns = two_cards ∷ [] }) [] ≡ false)
    × ((scan (record { patterns = two_cards ∷ [] }) []).leaked ≡ true)
any_leaked_misses_example =
    any_leaked_misses two_cards [] mistyped (card ∷ []) refl mistyped_run later_run

abbrev scanner : SecretScanner
scanner = record { patterns = record two_cards { find_all = λ text. card ∷ [] } ∷ [] }

leaked_run : any_leaked scanner [] ≡ true
unfolding any_leaked luhn_valid digits_of luhn_sum
leaked_run = refl
