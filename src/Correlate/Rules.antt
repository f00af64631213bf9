-- ===== src/Correlate/Rules.antt =====
-- pkg/correlate/rules.go: matching a rule against the signals of a process.
pub mod Sound
pub mod Greedy
pub mod Touch
use neurosentry.Common.{
  Bool, List, Option, Time, [], any, before, false, if◌then◌else◌, int_eq, is_empty, keep, length,
  ltb, map, nat_eq, neg, none, not, some, str_eq, true, ◌&&◌, ◌+ℤ◌, ◌==◌, ◌||◌, ◌∷◌,
}
use neurosentry.Correlate.{Matcher, MatcherSpec, Rule, Signal}

abbrev pub holds : Option (Signal → Bool) → Signal → Bool
holds none s = true
holds (some p) s = p s

-- Matcher.matches
unfoldable pub matches : Matcher → Signal → Bool
matches m s =
    if not (is_empty m.layer) && not (s.layer == m.layer)
    then false
    else if not (is_empty m.kind) && not (s.kind == m.kind)
    then false
    else if not (holds m.pred s)
    then false
    else true

abbrev pub selector : Matcher → MatcherSpec
selector m = record { layer = m.layer; kind = m.kind; attr_key = []; attr_pattern = [] }

-- Rule.matcherSpecs
pub matcher_specs : Rule → List MatcherSpec
matcher_specs r = if ltb 0 (length r.matchers) then r.matchers else map selector r.all

-- Rule.touchedBy
unfoldable pub touched_by : Rule → Signal → Bool
touched_by r s = any (λ m. matches m s) r.all

-- `win` with its `used` flags.
abbrev pub Pool : Type 0
Pool = List (Bool × Signal)

abbrev pub pick_after : Bool × Signal → Option (Signal × Pool) → Option (Signal × Pool)
pick_after x none = none
pick_after x (some (t, rest)) = some (t, x ∷ rest)

-- The inner loop of evaluate: the earliest unused signal that the matcher accepts, which becomes used.
unfoldable pub pick : Matcher → Pool → Option (Signal × Pool)
pick m [] = none
pick m ((u, s) ∷ xs) =
    let rest = pick m xs in
    if u || not (matches m s) then pick_after (u, s) rest else some (s, (true, s) ∷ xs)

abbrev pub cons_to : Signal → Option (List Signal) → Option (List Signal)
cons_to s none = none
cons_to s (some ss) = some (s ∷ ss)

-- The outer loop: one signal for each matcher.
unfoldable pub assign : List Matcher → Pool → Option (List Signal)
unfolding pick
assign [] xs = some []
assign (m ∷ ms) xs = elim (pick m xs) [ none ↦ none | some (s, ys) ↦ cons_to s (assign ms ys) ]

-- No signal of the chain is earlier than the one before it.
unfoldable pub in_order : List Signal → Bool
in_order [] = true
in_order (s ∷ []) = true
in_order (s ∷ (t ∷ ss)) = not (before t.timestamp s.timestamp) && in_order (t ∷ ss)

-- The candidates: the signals at or after the cutoff.
unfoldable pub windowed : Rule → Time → List Signal → List Signal
windowed r now = keep (λ s. not (before s.timestamp (now +ℤ neg r.window)))

abbrev pub check_order : Bool → Option (List Signal) → Option (List Signal)
check_order ordered none = none
check_order ordered (some chain) = if ordered && not (in_order chain) then none else some chain

-- Rule.evaluate: the chain, or `none` for (nil, false).
unfoldable pub evaluate : Rule → List Signal → Time → Option (List Signal)
unfolding assign in_order windowed
evaluate r signals now =
    check_order r.ordered (assign r.all (map (λ s. (false, s)) (windowed r now signals)))
