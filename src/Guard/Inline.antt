-- ===== src/Guard/Inline.antt =====
-- pkg/aiguard/dlp.go: the inline check beside the full scan.
use neurosentry.Common.{
  Bool, List, Option, Str, [], any, ap, arith, false, if_cases, inl, inr, int_eq, is_empty, length,
  ltb, nat_eq, not, not-true, refl, str_eq, true, ◌&&◌, ◌++◌, ◌||◌, ◌∙◌, ◌∷◌, ◌≡◌, ◌⊎◌,
}
use neurosentry.Guard.{
  DlpFinding, DlpPattern, SecretScanner, all_findings, any_leaked, findings_of, first_of, passes,
  scan,
}

findings_some :
    (p : DlpPattern) (ms : List Str)
    → any (passes p.validate) ms ≡ true
    → ltb 0 (length (findings_of p ms)) ≡ true
unfolding findings_of
findings_some p [] h = cc
findings_some p (m ∷ ms) h =
    if_cases (λ (fs : List DlpFinding). ltb 0 (length fs) ≡ true) (not (passes p.validate m)) _ _
      (λ fails. findings_some p ms (rest (passes p.validate m) (not-true _ fails) h))
      (λ _. ground arith)
  where
    rest :
        (b : Bool)
        → b ≡ false
        → b || any (passes p.validate) ms ≡ true
        → any (passes p.validate) ms ≡ true
    rest true e k = cc
    rest false e k = k

some-append :
    (fs gs : List DlpFinding)
    → (ltb 0 (length fs) ≡ true) ⊎ (ltb 0 (length gs) ≡ true)
    → ltb 0 (length (fs ++ gs)) ≡ true
some-append [] gs (inl h) = cc
some-append [] gs (inr h) = h
some-append (f ∷ fs) gs h = ground arith

first_passes :
    (v : Option (Str → Bool)) (ms : List Str)
    → (not (is_empty (first_of ms)) && passes v (first_of ms)) ≡ true
    → any (passes v) ms ≡ true
first_passes v [] h = cc
first_passes v (m ∷ ms) h = ground arith

-- What the inline check reports, the full scan of the same text reports too.
pub any_leaked_sound :
    (s : SecretScanner) (text : Str) → any_leaked s text ≡ true → (scan s text).leaked ≡ true
unfolding any_leaked scan all_findings
any_leaked_sound s text h = go s.patterns h
  where
    hit : DlpPattern → Bool
    hit p =
        not (is_empty (first_of (p.find_all text)))
        && passes p.validate (first_of (p.find_all text))

    go : (ps : List DlpPattern) → any hit ps ≡ true → ltb 0 (length (all_findings ps text)) ≡ true
    go [] k = cc
    go (p ∷ ps) k =
        some-append (findings_of p (p.find_all text)) (all_findings ps text)
          (either (hit p) refl (λ j. go ps j) k)
      where
        either :
            (b : Bool)
            → hit p ≡ b
            → (any hit ps ≡ true → ltb 0 (length (all_findings ps text)) ≡ true)
            → b || any hit ps ≡ true
            → (ltb 0 (length (findings_of p (p.find_all text))) ≡ true)
              ⊎ (ltb 0 (length (all_findings ps text)) ≡ true)
        either true e ih j =
            inl (findings_some p (p.find_all text) (first_passes p.validate (p.find_all text) e))
        either false e ih j = inr (ih j)

-- The inline check looks only at the first match of a pattern: if that one fails the pattern's second
-- check, as a number that is not a card's, it misses what the full scan reports of the matches after it.
pub any_leaked_misses :
    (p : DlpPattern) (text m : Str) (ms : List Str)
    → p.find_all text ≡ m ∷ ms
    → passes p.validate m ≡ false
    → any (passes p.validate) ms ≡ true
    → (any_leaked (record { patterns = p ∷ [] }) text ≡ false)
      × ((scan (record { patterns = p ∷ [] }) text).leaked ≡ true)
unfolding any_leaked scan all_findings
any_leaked_misses p text m ms found fails later = (
  ap (λ l. seen (first_of l)) found ∙ unseen (passes p.validate m) (is_empty m) fails,
  some-append (findings_of p (p.find_all text)) [] (
      inl (
        findings_some p (p.find_all text)
          (ap (any (passes p.validate)) found ∙ after (passes p.validate m) later))),
)
  where
    seen : Str → Bool
    seen k = not (is_empty k) && passes p.validate k || false

    unseen : (b e : Bool) → b ≡ false → not e && b || false ≡ false
    unseen true e h = cc
    unseen false true h = refl
    unseen false false h = refl

    after : (b : Bool) → any (passes p.validate) ms ≡ true → b || any (passes p.validate) ms ≡ true
    after true h = refl
    after false h = h
