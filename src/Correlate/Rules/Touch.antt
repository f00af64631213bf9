-- ===== src/Correlate/Rules/Touch.antt =====
-- pkg/correlate/rules.go: why the engine may skip the rules that a new signal does not touch.
use mathlib.Core.List.{map-append, append-nil}
use neurosentry.Common.{
  Bool, List, Option, Time, [], any, ap, arith, before, false, if_cases, if_related, int_eq, keep,
  keep-append, map, nat_eq, neg, none, not, refl, some, str_eq, ◌++◌, ◌+ℤ◌, ◌||◌, ◌∙◌, ◌∷◌, ◌≡◌,
}
use neurosentry.Correlate.{Matcher, Rule, Signal}
use neurosentry.Correlate.Rules.{
  Pool, assign, check_order, cons_to, evaluate, matches, pick, pick_after, touched_by, windowed,
}

abbrev and_one_more : Signal → Option (Signal × Pool) → Option (Signal × Pool)
and_one_more s none = none
and_one_more s (some (t, xs)) = some (t, xs ++ (false, s) ∷ [])

and_one_more-after :
    (s : Signal) (x : Bool × Signal) (o : Option (Signal × Pool))
    → pick_after x (and_one_more s o) ≡ and_one_more s (pick_after x o)
and_one_more-after s x none = refl
and_one_more-after s x (some (t, ys)) = refl

pick-append :
    (m : Matcher) (xs : Pool) (s : Signal)
    → matches m s ≡ false
    → pick m (xs ++ (false, s) ∷ []) ≡ and_one_more s (pick m xs)
unfolding pick
pick-append m [] s h = rw h
pick-append m ((u, t) ∷ xs) s h =
    if_related (λ o o'. o ≡ and_one_more s o') (u || not (matches m t)) _ _ _ _ _ refl
      (λ _. ap (pick_after (u, t)) (pick-append m xs s h) ∙ and_one_more-after s (u, t) (pick m xs))
      (λ _. refl)

assign-append :
    (ms : List Matcher) (xs : Pool) (s : Signal)
    → any (λ m. matches m s) ms ≡ false
    → assign ms (xs ++ (false, s) ∷ []) ≡ assign ms xs
unfolding assign
assign-append [] xs s h = refl
assign-append (m ∷ ms) xs s h =
    rw (pick-append m xs s (ground arith), assign)
      (step (pick m xs) (λ ys. assign-append ms ys s (ground arith)))
  where
    step :
        (o : Option (Signal × Pool))
        → ((ys : Pool) → assign ms (ys ++ (false, s) ∷ []) ≡ assign ms ys)
        → (elim (and_one_more s o) [ none ↦ none | some (t, ys) ↦ cons_to t (assign ms ys) ])
          ≡ (elim o [ none ↦ none | some (t, ys) ↦ cons_to t (assign ms ys) ])
    step none ih = refl
    step (some (t, ys)) ih = rw (ih ys)

-- Appending a signal that no matcher of a rule accepts changes nothing about what evaluate returns for it.
pub evaluate_untouched :
    (r : Rule) (signals : List Signal) (s : Signal) (now : Time)
    → touched_by r s ≡ false
    → evaluate r (signals ++ s ∷ []) now ≡ evaluate r signals now
unfolding evaluate touched_by windowed
evaluate_untouched r signals s now h =
    let recent = λ (t : Signal). not (before t.timestamp (now +ℤ neg r.window)) in
    ap (λ w. check_order r.ordered (assign r.all (map (λ t. (false, t)) w)))
      (keep-append recent signals (s ∷ []))
    ∙ ap (check_order r.ordered) (
        if_cases
          (λ w.
            assign r.all (unused (keep recent signals ++ w))
            ≡ assign r.all (unused (keep recent signals)))
          (recent s) _ _
          (λ _.
            ap (assign r.all) (map-append _ (keep recent signals) (s ∷ []))
            ∙ assign-append r.all (unused (keep recent signals)) s h)
          (λ _. rw append-nil))
  where
    unused : List Signal → Pool
    unused = map (λ t. (false, t))
