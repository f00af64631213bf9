-- ===== src/Correlate/Rules/Greedy.antt =====
-- pkg/correlate/rules.go: when the greedy assignment finds a chain, and when it misses one.
use neurosentry.Common.{
  Bool, List, Option, Option-cases, Time, [], any, arith, before, false, if_cases, inl, inr, int_eq,
  map, nat_eq, none, not, refl, second, some, str_eq, subst, true, ◌&&◌, ◌||◌, ◌∙◌, ◌∷◌, ◌≡◌, ◌≢◌,
  ◌⊎◌,
}
use neurosentry.Correlate.{Matcher, Rule, Signal}
use neurosentry.Correlate.Rules.Sound.{Accepts}
use neurosentry.Correlate.Rules.{
  Pool, assign, evaluate, in_order, matches, pick, pick_after, windowed,
}

-- Some signal matches.
abbrev pub some_match : Matcher → List Signal → Bool
some_match m ss = any (λ s. matches m s) ss

-- No signal is accepted by two of the matchers.
abbrev pub Apart : Matcher → List Matcher → Type 0
Apart m [] = Unit
Apart m (n ∷ ns) = ((s : Signal) → (matches m s && matches n s) ≡ false) × Apart m ns

abbrev pub Disjoint : List Matcher → Type 0
Disjoint [] = Unit
Disjoint (m ∷ ms) = Apart m ms × Disjoint ms

-- An unused signal that the matcher accepts is left.
abbrev available : Matcher → Pool → Bool
available m xs = any (λ x. not x.0 && matches m x.1) xs

pick-available : (m : Matcher) (xs : Pool) → available m xs ≡ true → pick m xs ≢ none
unfolding pick
pick-available m [] h = cc
pick-available m ((u, s) ∷ xs) h = ground (arith, pick-available m xs)

-- Taking a signal for `m` takes none that `n` accepts.
abbrev Spares : Matcher → Pool → Option (Signal × Pool) → Type 0
Spares n xs none = Unit
Spares n xs (some (t, ys)) = available n ys ≡ available n xs

Spares-after :
    (n : Matcher) (x : Bool × Signal) (xs : Pool) (o : Option (Signal × Pool))
    → Spares n xs o
    → Spares n (x ∷ xs) (pick_after x o)
Spares-after n x xs none h = tt
Spares-after n (u, s) xs (some (t, ys)) h = rw h

pick-Spares :
    (m n : Matcher) (xs : Pool)
    → ((s : Signal) → (matches m s && matches n s) ≡ false)
    → Spares n xs (pick m xs)
unfolding pick
pick-Spares m n [] apart = tt
pick-Spares m n ((u, s) ∷ xs) apart =
    if_cases (Spares n ((u, s) ∷ xs)) (u || not (matches m s)) _ _
      (λ _. Spares-after n (u, s) xs (pick m xs) (pick-Spares m n xs apart))
      (λ e. ground (arith, apart s))

abbrev Available : List Matcher → Pool → Type 0
Available [] xs = Unit
Available (m ∷ ms) xs = (available m xs ≡ true) × Available ms xs

Available-kept :
    (m : Matcher) (ms : List Matcher) (xs ys : Pool) (t : Signal)
    → Apart m ms
    → pick m xs ≡ some (t, ys)
    → Available ms xs
    → Available ms ys
Available-kept m [] xs ys t apart e h = tt
Available-kept m (n ∷ ns) xs ys t apart e h = (
  subst (Spares n xs) e (pick-Spares m n xs apart.0) ∙ h.0,
  Available-kept m ns xs ys t apart.1 e h.1,
)

assign-total :
    (ms : List Matcher) (xs : Pool)
    → Disjoint ms
    → Available ms xs
    → (chain : List Signal) × (assign ms xs ≡ some chain)
unfolding assign
assign-total [] xs d a = ([], refl)
assign-total (m ∷ ms) xs d a = first (Option-cases (pick m xs)) (λ ys k. assign-total ms ys d.1 k)
  where
    first :
        (pick m xs ≡ none) ⊎ ((p : Signal × Pool) × (pick m xs ≡ some p))
        → ((ys : Pool) → Available ms ys → (chain : List Signal) × (assign ms ys ≡ some chain))
        → (chain : List Signal) × (assign (m ∷ ms) xs ≡ some chain)
    first (inl e) ih = absurd (pick-available m xs a.0 e)
    first (inr ((t, ys), e)) ih =
        let rest = ih ys (Available-kept m ms xs ys t d.0 e a.1) in
        (t ∷ rest.0, rw (e, assign) (rw rest.1))

available-unused :
    (m : Matcher) (ss : List Signal) → available m (map (λ s. (false, s)) ss) ≡ some_match m ss
available-unused m [] = refl
available-unused m (s ∷ ss) = rw (available-unused m ss)

abbrev pub AllMatched : List Matcher → List Signal → Type 0
AllMatched [] ss = Unit
AllMatched (m ∷ ms) ss = (some_match m ss ≡ true) × AllMatched ms ss

AllMatched-Available :
    (ms : List Matcher) (ss : List Signal)
    → AllMatched ms ss
    → Available ms (map (λ s. (false, s)) ss)
AllMatched-Available [] ss h = tt
AllMatched-Available (m ∷ ms) ss h = (available-unused m ss ∙ h.0, AllMatched-Available ms ss h.1)

-- An unordered rule whose matchers accept no signal in common fires whenever each of its matchers accepts
-- some signal of the window.
pub evaluate_complete :
    (r : Rule) (signals : List Signal) (now : Time)
    → r.ordered ≡ false
    → Disjoint r.all
    → AllMatched r.all (windowed r now signals)
    → (chain : List Signal) × (evaluate r signals now ≡ some chain)
unfolding evaluate
evaluate_complete r signals now any_order d h =
    let found = assign-total r.all _ d (AllMatched-Available r.all (windowed r now signals) h) in
    (found.0, rw (found.1, any_order))

-- An ordered rule of two matchers misses an ordered chain whenever a signal for the second matcher also
-- came before the signal for the first: the greedy choice takes the early one, and its order is wrong.
pub ordered_miss :
    (r : Rule) (m n : Matcher) (s t u : Signal) (now : Time)
    → r.all ≡ m ∷ n ∷ []
    → r.ordered ≡ true
    → windowed r now (s ∷ t ∷ u ∷ []) ≡ s ∷ t ∷ u ∷ []
    → (matches m s ≡ false) × (matches n s ≡ true)
    → matches m t ≡ true
    → matches n u ≡ true
    → before s.timestamp t.timestamp ≡ true
    → before u.timestamp t.timestamp ≡ false
    → (evaluate r (s ∷ t ∷ u ∷ []) now ≡ none)
      × Accepts r.all (t ∷ u ∷ [])
      × (in_order (t ∷ u ∷ []) ≡ true)
unfolding evaluate assign in_order pick
ordered_miss r m n s t u now two ord win early first second later after =
    (rw (two, ord, win) (ground arith), rw two (first, (second, tt)), rw after)
