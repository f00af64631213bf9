-- ===== src/Correlate/Authoring/Runs.antt =====
-- pkg/correlate/rulespec.go: what holds of the rules after any authoring calls.
use neurosentry.Common.{
  Bool, Duration, List, Map, Option, Str, [], arith, eq_iff, false, get, has, has-put, if_cases,
  inl, inr, int_eq, is_empty, ltb_ℤ, nat_eq, not, put, refl, str_eq, true, ◌||◌, ◌∙◌, ◌∷◌, ◌≡◌, ◌⊎◌,
}
use neurosentry.Correlate.{Rule}
use neurosentry.Correlate.Engine.{
  Correlator, enable_all, new_correlator, or_false, set_enabled, widest,
}
use neurosentry.Correlate.Authoring.{
  AuthorError, RuleSpec, SpecError, add_rule, compile, install, invalid, remove_rule, swap_rule,
  update_rule, wider,
}
use neurosentry.Correlate.Authoring.Registry.{
  Registered, UniqueIds, Within, id_in, install-Registered, remove-Registered, swap-Registered,
}

enable_all-has :
    (m : Map Str Bool) (rs : List Rule) (id : Str)
    → has (enable_all m rs) id ≡ has m id || id_in id rs
enable_all-has m [] id = ground arith
enable_all-has m (r ∷ rs) id =
    enable_all-has (put m r.id true) rs id ∙ ground (arith, has-put m r.id id true)

widest-least : (w : Duration) (rs : List Rule) → ltb_ℤ (widest w rs) w ≡ false
widest-least w [] = ground arith
widest-least w (r ∷ rs) = ground (arith, widest-least (wider w r) rs)

widest-Within : (w : Duration) (rs : List Rule) → Within (widest w rs) rs
widest-Within w [] = tt
widest-Within w (r ∷ rs) =
    (ground (arith, widest-least (wider w r) rs), widest-Within (wider w r) rs)

new-Registered : (rules : List Rule) → UniqueIds rules → Registered (new_correlator rules)
unfolding new_correlator
new-Registered rules u = record {
  listed = λ id. enable_all-has [] rules id ∙ unfold get in refl;
  unique = u;
  wide = widest-Within _ rules;
}

module _ (compile_re : Str → Option (Str → Bool)) (Float : Type 0)
    (seconds_to_duration : Float → Duration) where
  -- The calls that change the rules, and the switch of a rule.
  pub data Call : Type 0 where
    adds updates : Str → RuleSpec Float → Call
    removes : Str → Call
    enables : Str → Bool → Call

  pub step : Correlator → Call → Correlator
  step c (adds fresh spec) = (add_rule compile_re Float seconds_to_duration c fresh spec).0
  step c (updates fresh spec) = (update_rule compile_re Float seconds_to_duration c fresh spec).0
  step c (removes id) = (remove_rule c id).0
  step c (enables id on) = (set_enabled c id on).0

  pub run : Correlator → List Call → Correlator
  run c [] = c
  run c (x ∷ xs) = run (step c x) xs

  step-Registered : (c : Correlator) (x : Call) → Registered c → Registered (step c x)
  unfolding step add_rule install update_rule swap_rule set_enabled
  step-Registered c (adds fresh spec) v =
      added (compile compile_re Float seconds_to_duration fresh spec)
    where
      outcome : SpecError ⊎ Rule → Correlator × (AuthorError ⊎ Str)
      outcome o = elim o [
        | inl e ↦ (c, inl (invalid e))
        | inr rule ↦ install compile_re Float seconds_to_duration c rule
      ]

      added : (o : SpecError ⊎ Rule) → Registered (outcome o).0
      added (inl e) = v
      added (inr rule) =
          if_cases (λ (r : Correlator × (AuthorError ⊎ Str)). Registered r.0)
            (has c.enabled rule.id) _ _ (λ _. v) (λ new_. install-Registered c rule new_ v)
  step-Registered c (updates fresh spec) v =
      if_cases Ends (is_empty spec.id) _ _ (λ _. v)
        λ _.
          if_cases Ends (not (or_false (get c.custom spec.id))) _ _ (λ _. v)
            (λ _. updated (compile compile_re Float seconds_to_duration fresh spec))
    where
      Ends : Correlator × (AuthorError ⊎ Rule) → Type 0
      Ends r = Registered r.0

      outcome : SpecError ⊎ Rule → Correlator × (AuthorError ⊎ Rule)
      outcome o = elim o [
        | inl e ↦ (c, inl (invalid e))
        | inr rule ↦ swap_rule compile_re Float seconds_to_duration c spec.id rule
      ]

      updated : (o : SpecError ⊎ Rule) → Registered (outcome o).0
      updated (inl e) = v
      updated (inr rule) = swap-Registered c spec.id rule v
  step-Registered c (removes id) v = remove-Registered c id v
  step-Registered c (enables id on) v =
      if_cases (λ (r : Correlator × Bool). Registered r.0) (has c.enabled id) _ _
        (λ here. record {
          listed = λ k. ground (arith, has-put c.enabled id k on, v.listed k, eq_iff id k, here);
          unique = v.unique;
          wide = v.wide;
        })
        (λ _. v)

  run_keeps : (c : Correlator) (xs : List Call) → Registered c → Registered (run c xs)
  unfolding run
  run_keeps c [] v = v
  run_keeps c (x ∷ xs) v = run_keeps (step c x) xs (step-Registered c x v)

  -- From built-in rules of different identifiers, whatever rules are added, updated, removed and switched:
  -- an identifier has a switch exactly when a rule has it, no two rules share one, and the time for which
  -- signals are kept is at least every rule's window.
  pub run-Registered :
      (rules : List Rule) (xs : List Call)
      → UniqueIds rules
      → Registered (run (new_correlator rules) xs)
  run-Registered rules xs u = run_keeps (new_correlator rules) xs (new-Registered rules u)
