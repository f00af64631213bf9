-- ===== src/Correlate/Authoring.antt =====
-- pkg/correlate/rulespec.go and suppress.go: rules and suppressions that operators add at run time. A
-- random identifier is an argument. regexp.Compile and the conversion of a float64 number of seconds are
-- parameters: `compile_re` gives the test that a pattern makes, or `none` for an error.
pub mod Registry
pub mod Runs
mod Examples
pub mod Silence
use neurosentry.Common.{
  Bool, Duration, List, Option, Str, [], delete, false, get, has, if◌then◌else◌, inl, inr, int_eq,
  is_empty, leb_ℤ, length, ltb_ℤ, nat_beq, nat_eq, none, not, pos, put, second, some, str, str_eq,
  true, ℕ, ◌&&◌, ◌*◌, ◌++◌, ◌+◌, ◌==◌, ◌||◌, ◌∷◌, ◌⊎◌,
}
use neurosentry.Correlate.{Matcher, MatcherSpec, Rule, Signal, attr}
use neurosentry.Correlate.Engine.{Correlator, SuppressionSpec, or_false}

-- The errors of compile, with the index of the matcher.
pub data SpecError : Type 0 where
  no_name no_matchers : SpecError
  bad_pattern : ℕ → SpecError

pub data AuthorError : Type 0 where
  invalid : SpecError → AuthorError
  id_taken rule_not_found rule_not_custom : AuthorError

abbrev pub first_nonempty : Str → Str → Str
first_nonempty a b = if not (is_empty a) then a else b

pub record RuleSpec (Float : Type 0) : Type 0 where
  pub id : Str
  pub name : Str
  pub category : Str
  pub severity : Str
  pub technique : Str
  pub mitre_attack : Str
  pub description : Str
  pub window_secs : Float
  pub ordered : Bool
  pub matchers : List MatcherSpec
  pub rationale : Str
  pub remediation : List Str
  pub false_positives : List Str
  pub references : List Str

-- The first rule with the identifier is replaced.
pub replace_rule : Str → Rule → List Rule → List Rule
replace_rule id rule [] = []
replace_rule id rule (r ∷ rs) =
    let rest = replace_rule id rule rs in if r.id == id then rule ∷ rs else r ∷ rest

-- The first rule with the identifier goes.
pub drop_rule : Str → List Rule → List Rule
drop_rule id [] = []
drop_rule id (r ∷ rs) = let rest = drop_rule id rs in if r.id == id then rs else r ∷ rest

-- `if rule.Window > c.maxWindow { c.maxWindow = rule.Window }`
abbrev pub wider : Duration → Rule → Duration
wider w r = if ltb_ℤ w r.window then r.window else w

-- RemoveRule: `false` for its error.
pub remove_rule : Correlator → Str → Correlator × Bool
unfolding drop_rule
remove_rule c id = if not (or_false (get c.custom id)) then (c, false) else (
  record c {
    rules = drop_rule id c.rules;
    enabled = delete c.enabled id;
    custom = delete c.custom id;
    fire_count = delete c.fire_count id;
  },
  true,
)

-- RemoveSuppression
pub remove_suppression : Correlator → Str → Correlator × Bool
remove_suppression c id =
    if not (has c.suppressions id)
    then (c, false)
    else (record c { suppressions = delete c.suppressions id }, true)

module _ (compile_re : Str → Option (Str → Bool)) where
  -- The matcher of a spec, once its pattern is compiled.
  abbrev pub matcher_of : MatcherSpec → Option (Signal → Bool) → Matcher
  matcher_of ms pred = record { layer = ms.layer; kind = ms.kind; pred = pred }

  -- The body of compile's loop: `none` for a pattern that does not compile.
  compile_matcher : MatcherSpec → Option Matcher
  compile_matcher ms =
      if not (is_empty ms.attr_key) && not (is_empty ms.attr_pattern)
      then elim (compile_re ms.attr_pattern) [
        | none ↦ none
        | some re ↦ some (matcher_of ms (some (λ s. re (attr s ms.attr_key))))
      ]
      else some (matcher_of ms none)

  -- The loop of compile, from the matcher `i` on.
  compile_matchers : ℕ → List MatcherSpec → SpecError ⊎ List Matcher
  unfolding compile_matcher
  compile_matchers i [] = inr []
  compile_matchers i (ms ∷ mss) =
      let rest = compile_matchers (i + 1) mss in
      elim (compile_matcher ms) [
        | none ↦ inl (bad_pattern i)
        | some m ↦ elim rest [ inl e ↦ inl e | inr ks ↦ inr (m ∷ ks) ]
      ]

  -- AddSuppression: the identifier that it returns, or `none` for an error.
  pub add_suppression : Correlator → Str → SuppressionSpec → Correlator × Option Str
  add_suppression c fresh spec =
      if is_empty spec.attr_key || is_empty spec.attr_pattern
      then (c, none)
      else elim (compile_re spec.attr_pattern) [
        | none ↦ (c, none)
        | some re ↦
            let id = if is_empty spec.id then str "NS-SUP-" ++ fresh else spec.id in
            if has c.suppressions id then (c, none) else (
              record c {
                suppressions =
                    put c.suppressions id
                      (record { spec = record spec { id = id }; re = re; matched = pos 0 });
              },
              some id,
            )
      ]

  module _ (Float : Type 0) (seconds_to_duration : Float → Duration) where
    abbrev pub window_from : Duration → Duration
    window_from w = if leb_ℤ w (pos 0) then pos (10 * second) else w

    -- The rule that compile returns, for the matchers that it has compiled.
    rule_from : Str → RuleSpec Float → List Matcher → Rule
    rule_from fresh spec all = record {
      id = if is_empty spec.id then str "NS-CUSTOM-" ++ fresh else spec.id;
      name = spec.name;
      all = all;
      window = window_from (seconds_to_duration spec.window_secs);
      ordered = spec.ordered;
      severity = if is_empty spec.severity then str "medium" else spec.severity;
      technique = spec.technique;
      mitre_attack = spec.mitre_attack;
      category = first_nonempty spec.category (str "Custom");
      references = spec.references;
      description = spec.description;
      rationale = spec.rationale;
      remediation = spec.remediation;
      false_positives = spec.false_positives;
      matchers = spec.matchers;
    }

    -- RuleSpec.compile
    pub compile : Str → RuleSpec Float → SpecError ⊎ Rule
    unfolding compile_matchers rule_from
    compile fresh spec =
        if is_empty spec.name
        then inl no_name
        else if nat_beq (length spec.matchers) 0
        then inl no_matchers
        else elim (compile_matchers 0 spec.matchers) [
          | inl e ↦ inl e
          | inr all ↦ inr (rule_from fresh spec all)
        ]

    -- The part of AddRule that has a rule.
    pub install : Correlator → Rule → Correlator × (AuthorError ⊎ Str)
    install c rule = if has c.enabled rule.id then (c, inl id_taken) else (
      record c {
        rules = c.rules ++ rule ∷ [];
        enabled = put c.enabled rule.id true;
        custom = put c.custom rule.id true;
        max_window = wider c.max_window rule;
      },
      inr rule.id,
    )

    -- AddRule
    pub add_rule : Correlator → Str → RuleSpec Float → Correlator × (AuthorError ⊎ Str)
    unfolding compile install
    add_rule c fresh spec = elim (compile fresh spec) [
      | inl e ↦ (c, inl (invalid e))
      | inr rule ↦ install c rule
    ]

    -- The part of UpdateRule that has a rule.
    pub swap_rule : Correlator → Str → Rule → Correlator × (AuthorError ⊎ Rule)
    unfolding replace_rule
    swap_rule c id rule = (
      record c {
        rules = replace_rule id (record rule { id = id }) c.rules;
        max_window = wider c.max_window rule;
      },
      inr (record rule { id = id }),
    )

    -- UpdateRule
    pub update_rule : Correlator → Str → RuleSpec Float → Correlator × (AuthorError ⊎ Rule)
    unfolding compile swap_rule
    update_rule c fresh spec =
        if is_empty spec.id
        then (c, inl rule_not_found)
        else if not (or_false (get c.custom spec.id))
        then (c, inl (if has c.enabled spec.id then rule_not_custom else rule_not_found))
        else elim (compile fresh spec) [
          | inl e ↦ (c, inl (invalid e))
          | inr rule ↦ swap_rule c spec.id rule
        ]
