-- ===== src/Policy/Decisions.antt =====
-- pkg/policy/loader.go: what Validate accepts, and what Evaluate decides.
use neurosentry.Common.{
  All, List, Option, Str, [], ap, arith, eq_iff, false, if_cases, inl, inr, int_eq, is_empty,
  length, nat_eq, none, refl, some, str, str_eq, subst, sym, true, ℕ, ◌++◌, ◌+◌, ◌<◌, ◌==◌, ◌↔◌,
  ◌∙◌, ◌∷◌, ◌≡◌, ◌⊎◌,
}
use neurosentry.Policy.{
  Action, Fault, Net, Policy, Rule, action_alert, action_allow, action_block, check_rule,
  check_rules, decide, evaluate, matches, validate,
}
use neurosentry.Policy.Events.{Event}
use neurosentry.Policy.Builtin.{default_policy}
use neurosentry.Policy.Load.{LoadError, invalid, load, unparsable, unreadable, validated}

-- One of the three actions.
abbrev pub IsAction : Action → Type 0
IsAction a = ((a ≡ action_allow) ⊎ (a ≡ action_block)) ⊎ (a ≡ action_alert)

pub record IsSound (r : Rule) : Type 0 where
  pub named : is_empty r.name ≡ false
  pub typed : is_empty r.condition.type ≡ false
  pub acts : IsAction r.action

check_rule-IsSound : (i : ℕ) (r : Rule) → check_rule i r ≡ none → IsSound r
unfolding check_rule
check_rule-IsSound i r h = record {
  named = ground arith;
  typed = ground arith;
  acts = ground (
    arith,
    eq_iff r.action action_allow,
    eq_iff r.action action_block,
    eq_iff r.action action_alert,
  );
}

action_nonempty : (a : Action) → IsAction a → is_empty a ≡ false
action_nonempty a (inl (inl e)) = rw e refl
action_nonempty a (inl (inr e)) = rw e refl
action_nonempty a (inr e) = rw e refl

IsSound-check_rule : (i : ℕ) (r : Rule) → IsSound r → check_rule i r ≡ none
unfolding check_rule
IsSound-check_rule i r s = ground (
  arith,
  s.named,
  s.typed,
  s.acts,
  action_nonempty r.action s.acts,
  eq_iff r.action action_allow,
  eq_iff r.action action_block,
  eq_iff r.action action_alert,
)

check_rules-IsSound : (i : ℕ) (rs : List Rule) → check_rules i rs ≡ none → All IsSound rs
unfolding check_rules
check_rules-IsSound i [] h = tt
check_rules-IsSound i (r ∷ rs) h = go (check_rule i r) refl (check_rules-IsSound (i + 1) rs) h
  where
    go :
        (o : Option Fault)
        → check_rule i r ≡ o
        → (check_rules (i + 1) rs ≡ none → All IsSound rs)
        → (elim o [ some fault ↦ some fault | none ↦ check_rules (i + 1) rs ]) ≡ none
        → IsSound r × All IsSound rs
    go none e ih k = (check_rule-IsSound i r e, ih k)
    go (some fault) e ih k = cc

IsSound-check_rules : (i : ℕ) (rs : List Rule) → All IsSound rs → check_rules i rs ≡ none
unfolding check_rules
IsSound-check_rules i [] h = refl
IsSound-check_rules i (r ∷ rs) h =
    rw (IsSound-check_rule i r h.0, check_rules) (IsSound-check_rules (i + 1) rs h.1)

-- A policy with a version and at least one rule, each with a name, a type and one of the actions.
pub record IsValid (p : Policy) : Type 0 where
  pub versioned : is_empty p.version ≡ false
  pub ruled : 0 < length p.rules
  pub sound : All IsSound p.rules

-- Validate accepts a policy exactly when it has a version and at least one rule, and each of its rules
-- has a name, a condition type and one of the three actions.
pub validate_iff : (p : Policy) → (validate p ≡ none) ↔ IsValid p
unfolding validate
validate_iff p = (
  λ h. record {
    versioned = ground arith;
    ruled = ground arith;
    sound = check_rules-IsSound 0 p.rules (ground arith);
  },
  λ v. ground (arith, v.versioned, v.ruled, IsSound-check_rules 0 p.rules v.sound),
)

load-IsValid :
    (decode : Str → Option Policy) (path : Str) (bytes : Option Str) (p : Policy)
    → load decode path bytes ≡ inr p
    → All IsSound p.rules
unfolding load default_policy
load-IsValid decode path bytes p h =
    if_cases (λ (o : LoadError ⊎ Policy). o ≡ result p → All IsSound p.rules)
      (path == str "builtin") _ _ (λ _ e. subst (λ q. All IsSound q.rules) (of_inr e) default_sound)
      (λ _ e. go bytes e) h
  where
    result : Policy → LoadError ⊎ Policy
    result q = inr q

    of_inr : {q : Policy} → result q ≡ result p → q ≡ p
    of_inr e = cc

    default_sound : All IsSound default_policy.rules
    default_sound = (
      record { named = refl; typed = refl; acts = inl (inr refl) },
      (
        record { named = refl; typed = refl; acts = inl (inr refl) },
        (record { named = refl; typed = refl; acts = inl (inl refl) }, tt),
      ),
    )

    checked : (q : Policy) → validated q ≡ result p → All IsSound p.rules
    checked q e = decided (validate q) refl e
      where
        decided :
            (o : Option Fault)
            → validate q ≡ o
            → (elim o [ some fault ↦ inl (invalid fault) | none ↦ inr q ]) ≡ result p
            → All IsSound p.rules
        decided none v k = subst (λ r. All IsSound r.rules) (of_inr k) ((validate_iff q).0 v).sound
        decided (some fault) v k = cc

    parsed :
        (o : Option Policy)
        → (elim o [ none ↦ inl unparsable | some q ↦ validated q ]) ≡ result p
        → All IsSound p.rules
    parsed none e = cc
    parsed (some q) e = checked q e

    go :
        (o : Option Str)
        → (elim o [
          | none ↦ inl unreadable
          | some contents ↦ elim (decode contents) [ none ↦ inl unparsable | some q ↦ validated q ]
        ])
          ≡ result p
        → All IsSound p.rules
    go none e = cc
    go (some contents) e = parsed (decode contents) e

module _ (net : Net) where
  decide-IsAction : (rs : List Rule) (e : Event) → All IsSound rs → IsAction (decide net rs e)
  unfolding decide
  decide-IsAction [] e h = inl (inl refl)
  decide-IsAction (r ∷ rs) e h =
      if_cases IsAction (matches net r e) _ _ (λ _. h.0.acts) (λ _. decide-IsAction rs e h.1)

  -- Whatever file a policy was loaded from, it decides on every event by one of the three actions.
  pub evaluate-IsAction :
      (decode : Str → Option Policy) (path : Str) (bytes : Option Str) (p : Policy) (e : Event)
      → load decode path bytes ≡ inr p
      → IsAction (evaluate net p e)
  unfolding evaluate
  evaluate-IsAction decode path bytes p e h =
      decide-IsAction p.rules e (load-IsValid decode path bytes p h)

  -- The rule does not match.
  abbrev pub Passes : Event → Rule → Type 0
  Passes e r = matches net r e ≡ false

  -- The specification: the action of the first rule that matches, or `allow` if none does.
  abbrev pub Chooses : List Rule → Event → Action → Type 0
  Chooses rs e a =
      (All (Passes e) rs × (a ≡ action_allow))
      ⊎ ((before_it : List Rule) × (r : Rule) × (after_it : List Rule) × (rs
            ≡ before_it ++ r ∷ after_it)
          × All (Passes e) before_it
          × (matches net r e ≡ true)
          × (a ≡ r.action))

  decide-Chooses : (rs : List Rule) (e : Event) → Chooses rs e (decide net rs e)
  unfolding decide
  decide-Chooses [] e = inl (tt, refl)
  decide-Chooses (r ∷ rs) e =
      if_cases (Chooses (r ∷ rs) e) (matches net r e) _ _
        (λ hit. inr ([], r, rs, refl, tt, hit, refl)) (λ miss. later miss (decide-Chooses rs e))
    where
      later :
          matches net r e ≡ false
          → Chooses rs e (decide net rs e)
          → Chooses (r ∷ rs) e (decide net rs e)
      later miss (inl (none_, allow)) = inl ((miss, none_), allow)
      later miss (inr (xs, s, ys, split, none_, hit, act)) =
          inr (r ∷ xs, s, ys, ap (◌∷◌ r) split, (miss, none_), hit, act)

  decide-skips :
      (xs ys : List Rule) (e : Event)
      → All (Passes e) xs
      → decide net (xs ++ ys) e ≡ decide net ys e
  unfolding decide
  decide-skips [] ys e h = refl
  decide-skips (x ∷ xs) ys e h = rw h.0 (decide-skips xs ys e h.1)

  decide-first :
      (r : Rule) (ys : List Rule) (e : Event)
      → matches net r e ≡ true
      → decide net (r ∷ ys) e ≡ r.action
  unfolding decide
  decide-first r ys e h = rw h refl

  decide-none : (rs : List Rule) (e : Event) → All (Passes e) rs → decide net rs e ≡ action_allow
  unfolding decide
  decide-none [] e h = refl
  decide-none (r ∷ rs) e h = rw h.0 (decide-none rs e h.1)

  -- Evaluate implements its specification and nothing else: an action is the one it returns exactly when
  -- it is that of the first rule that matches, or `allow` when no rule matches.
  pub evaluate_iff :
      (p : Policy) (e : Event) (a : Action) → (evaluate net p e ≡ a) ↔ Chooses p.rules e a
  unfolding evaluate
  evaluate_iff p e a = (
    λ h. subst (Chooses p.rules e) h (decide-Chooses p.rules e),
    λ c. elim c [
      | inl (none_, allow) ↦ decide-none p.rules e none_ ∙ sym allow
      | inr (xs, r, ys, split, none_, hit, act) ↦
          ap (λ rs. decide net rs e) split
          ∙ decide-skips xs (r ∷ ys) e none_
          ∙ decide-first r ys e hit
          ∙ sym act
    ],
  )
