-- ===== src/Correlate/Rules/Sound.antt =====
-- pkg/correlate/rules.go: what a chain that `evaluate` returns consists of.
use mathlib.Core.List.{Perm}
use mathlib.Core.List.Perm
use neurosentry.Common.{
  Bool, List, Option, Time, [], ap, arith, false, if_cases, if◌then◌else◌, int_eq, map, nat_eq,
  none, not, refl, some, str_eq, subst, true, ◌++◌, ◌||◌, ◌∷◌, ◌≡◌,
}
use neurosentry.Correlate.{Matcher, Rule, Signal}
use neurosentry.Correlate.Rules.{
  Pool, assign, check_order, cons_to, evaluate, in_order, matches, pick, pick_after, windowed,
}

-- The signals that are not used yet.
abbrev pub free : Pool → List Signal
free [] = []
free ((u, s) ∷ xs) = if u then free xs else s ∷ free xs

-- The chain has one signal for each matcher, which accepts it.
abbrev pub Accepts : List Matcher → List Signal → Type 0
Accepts [] [] = Unit
Accepts [] (s ∷ ss) = ⊥
Accepts (m ∷ ms) [] = ⊥
Accepts (m ∷ ms) (s ∷ ss) = (matches m s ≡ true) × Accepts ms ss

-- A pick accepts what it takes, and leaves the other unused signals unused.
abbrev Picked : Matcher → Pool → Option (Signal × Pool) → Type 0
Picked m xs none = Unit
Picked m xs (some (s, ys)) = (matches m s ≡ true) × Perm (free xs) (s ∷ free ys)

Picked-used :
    (m : Matcher) (t : Signal) (xs : Pool) (o : Option (Signal × Pool))
    → Picked m xs o
    → Picked m ((true, t) ∷ xs) (pick_after (true, t) o)
Picked-used m t xs none h = tt
Picked-used m t xs (some (s, ys)) h = h

Picked-skipped :
    (m : Matcher) (t : Signal) (xs : Pool) (o : Option (Signal × Pool))
    → Picked m xs o
    → Picked m ((false, t) ∷ xs) (pick_after (false, t) o)
Picked-skipped m t xs none h = tt
Picked-skipped m t xs (some (s, ys)) h = (h.0, Perm.trans (Perm.cons t h.1) (Perm.swap s t _))

pick-Picked : (m : Matcher) (xs : Pool) → Picked m xs (pick m xs)
unfolding pick
pick-Picked m [] = tt
pick-Picked m ((true, t) ∷ xs) = Picked-used m t xs (pick m xs) (pick-Picked m xs)
pick-Picked m ((false, t) ∷ xs) =
    if_cases (Picked m ((false, t) ∷ xs)) (not (matches m t)) _ _
      (λ _. Picked-skipped m t xs (pick m xs) (pick-Picked m xs)) (λ e. (ground arith, Perm.refl _))

-- The chain is a selection of the unused signals, without repetition, that the matchers accept one by one.
abbrev Assigned : List Matcher → Pool → Option (List Signal) → Type 0
Assigned ms xs none = Unit
Assigned ms xs (some chain) =
    Accepts ms chain × ((rest : List Signal) × Perm (free xs) (chain ++ rest))

assign-Assigned : (ms : List Matcher) (xs : Pool) → Assigned ms xs (assign ms xs)
unfolding assign
assign-Assigned [] xs = (tt, (free xs, Perm.refl _))
assign-Assigned (m ∷ ms) xs = first (pick m xs) (pick-Picked m xs) (λ ys. assign-Assigned ms ys)
  where
    rest_of :
        (s : Signal) (ys : Pool) (o : Option (List Signal))
        → Picked m xs (some (s, ys))
        → Assigned ms ys o
        → Assigned (m ∷ ms) xs (cons_to s o)
    rest_of s ys none h a = tt
    rest_of s ys (some chain) h a = ((h.0, a.0), (a.1.0, Perm.trans h.1 (Perm.cons s a.1.1)))

    first :
        (o : Option (Signal × Pool))
        → Picked m xs o
        → ((ys : Pool) → Assigned ms ys (assign ms ys))
        → Assigned (m ∷ ms) xs (elim o [ none ↦ none | some (s, ys) ↦ cons_to s (assign ms ys) ])
    first none h ih = tt
    first (some (s, ys)) h ih = rest_of s ys (assign ms ys) h (ih ys)

free-unused : (ss : List Signal) → free (map (λ s. (false, s)) ss) ≡ ss
free-unused [] = refl
free-unused (s ∷ ss) = ap (◌∷◌ s) (free-unused ss)

check_order-some :
    (b : Bool) (o : Option (List Signal)) (chain : List Signal)
    → check_order b o ≡ some chain
    → (o ≡ some chain) × ((not b || in_order chain) ≡ true)
check_order-some b none chain e = cc
check_order-some true (some c) chain e = ground arith
check_order-some false (some c) chain e = (e, refl)

-- A chain that fires has one signal for each matcher of the rule, which accepts it; the signals are
-- different ones of the rule's window; and if the rule is ordered, each is no earlier than the one before.
pub evaluate_sound :
    (r : Rule) (signals : List Signal) (now : Time) (chain : List Signal)
    → evaluate r signals now ≡ some chain
    → Accepts r.all chain
      × ((rest : List Signal) × Perm (windowed r now signals) (chain ++ rest))
      × ((not r.ordered || in_order chain) ≡ true)
unfolding evaluate
evaluate_sound r signals now chain e =
    let win = windowed r now signals in
    let pool = map {B = Bool × Signal} (λ s. (false, s)) win in
    let h = check_order-some r.ordered (assign r.all pool) chain e in
    let a = subst (Assigned r.all pool) h.0 (assign-Assigned r.all pool) in
    (a.0, (a.1.0, subst (λ ss. Perm ss (chain ++ a.1.0)) (free-unused win) a.1.1), h.1)
