-- ===== src/Breaker/Decide.antt =====
-- One call of Evaluate in pkg/breaker/breaker.go: when it trips, and what it changes.
use neurosentry.Common.{
  Floats, IsPrintable, Map, Str, Time, [], ap, arith, eq_iff, false, fire_key, fire_key_injective,
  get, get-put, if_cases, if_related, inc64, inl, inr, int_eq, itoa, leb_ℤ, ltb, nat_eq, not, pos,
  put, refl, str, str_eq, sym, true, ℤ, ◌++◌, ◌↔◌, ◌∷◌, ◌≡◌, ◌≢◌, ◌≤◌, ◌⊎◌,
}
use neurosentry.Breaker.{
  Breaker, Decision, action_for, cooling, evaluate, fire, severity_rank, stay,
}

module _ (fl : Floats) where
  -- What Evaluate asks of the finding before it looks at the cooldown.
  pub record IsEligible (b : Breaker fl) (severity : Str) (pid : ℤ) : Type 0 where
    pub armed : b.policy.enabled ≡ true
    pub target : leb_ℤ pid (pos 0) ≡ false
    pub severe : severity_rank b.policy.min_severity ≤ severity_rank severity

  module _ (b : Breaker fl) (now : Time) (severity rule : Str) (pid : ℤ) where
    abbrev pub trip_key : Str
    trip_key = fire_key pid (action_for fl b.policy rule)

    -- A finding trips the breaker exactly when the breaker is armed, the finding has a process and is
    -- at or above the threshold severity, and the cooldown of its process and action is over.
    pub trip_iff : ((evaluate fl b now severity rule pid).1.trip ≡ true) ↔ (
        IsEligible b severity pid
        × (cooling fl b.policy.cooldown_secs now (get b.last_trip trip_key) ≡ false))
    unfolding evaluate fire
    trip_iff = ground arith

    -- What a call that trips leaves behind: the time under its key, and one more on the counter.
    abbrev pub tripped : Breaker fl
    tripped = record b { last_trip = put b.last_trip trip_key now; trip_count = inc64 b.trip_count }

    abbrev pub order : Decision
    order = record {
      trip = true;
      action = action_for fl b.policy rule;
      params = (str "pid", itoa pid) ∷ [];
      reason = str "auto-response: " ++ severity ++ str " finding " ++ rule;
    }

    -- The two ways that a call can end.
    abbrev Outcome : Breaker fl × Decision → Type 0
    Outcome r = ((why : Str) × (r ≡ (b, stay why))) ⊎ (r ≡ (tripped, order))

    fire-Outcome : Outcome (fire fl b now severity rule pid)
    unfolding fire
    fire-Outcome =
        if_cases Outcome (cooling fl b.policy.cooldown_secs now (get b.last_trip trip_key)) _ _
          (λ _. inl (str "cooldown", refl)) (λ _. inr refl)

    pub evaluate_cases : Outcome (evaluate fl b now severity rule pid)
    unfolding evaluate
    evaluate_cases =
        if_cases Outcome (not b.policy.enabled) _ _ (λ _. inl (str "breaker disarmed", refl))
          λ _.
            if_cases Outcome (leb_ℤ pid (pos 0)) _ _ (λ _. inl (str "no target pid", refl))
              λ _.
                if_cases Outcome
                  (ltb (severity_rank severity) (severity_rank b.policy.min_severity)) _ _
                  (λ _. inl (str "below min severity", refl)) (λ _. fire-Outcome)

    -- A call that does not trip leaves the breaker as it was; one that trips records its time under its
    -- own key, counts, and orders the rule's action for the finding's process.
    pub evaluate_effect :
        let r = evaluate fl b now severity rule pid in
        ((r.1.trip ≡ false) × (r.0 ≡ b)) ⊎ ((r.0 ≡ tripped) × (r.1 ≡ order))
    evaluate_effect = elim evaluate_cases [
      | inl (why, e) ↦ rw e (inl (refl, refl))
      | inr e ↦ rw e (inr (refl, refl))
    ]

  -- The decision reads the record of trips at the key of its own process and action only.
  module _ (b : Breaker fl) (trips : Map Str Time) (n : ℤ) (now : Time) (severity rule : Str)
      (pid : ℤ) where
    abbrev other : Breaker fl
    other = record { policy = b.policy; last_trip = trips; trip_count = n }

    abbrev SameDecision : Breaker fl × Decision → Breaker fl × Decision → Type 0
    SameDecision r r' = r.1 ≡ r'.1

    decision_local :
        get b.last_trip (fire_key pid (action_for fl b.policy rule))
          ≡ get trips (fire_key pid (action_for fl b.policy rule))
        → SameDecision
            (evaluate fl b now severity rule pid)
            (evaluate fl other now severity rule pid)
    unfolding evaluate fire
    decision_local g =
        if_related SameDecision (not b.policy.enabled) _ _ _ _ _ refl (λ _. refl)
          λ _.
            if_related SameDecision (leb_ℤ pid (pos 0)) _ _ _ _ _ refl (λ _. refl)
              λ _.
                if_related SameDecision
                  (ltb (severity_rank severity) (severity_rank b.policy.min_severity)) _ _ _ _ _
                  refl (λ _. refl)
                  λ _.
                    if_related SameDecision _ _ _ _ _ _
                      (ap (cooling fl b.policy.cooldown_secs now) g) (λ _. refl) (λ _. refl)

  -- A trip for one process never changes what is decided about another.
  pub evaluate_other_pid :
      (b : Breaker fl) (now later : Time) (severity severity' rule rule' : Str) (pid other : ℤ)
      → IsPrintable pid
      → IsPrintable other
      → pid ≢ other
      → (evaluate fl (evaluate fl b now severity rule pid).0 later severity' rule' other).1
        ≡ (evaluate fl b later severity' rule' other).1
  evaluate_other_pid b now later severity severity' rule rule' pid other h k ne =
      elim (evaluate_cases b now severity rule pid) [
        | inl (why, e) ↦ rw e
        | inr e ↦ rw e (sym (decision_local b _ _ later severity' rule' other untouched))
      ]
    where
      untouched :
          get b.last_trip (fire_key other (action_for fl b.policy rule'))
          ≡ get
              (tripped b now severity rule pid).last_trip
              (fire_key other (action_for fl b.policy rule'))
      untouched = rw get-put (
          ground (
            arith,
            eq_iff (fire_key pid (action_for fl b.policy rule))
                (fire_key other (action_for fl b.policy rule')),
            fire_key_injective pid other (action_for fl b.policy rule)
                (action_for fl b.policy rule') h k,
            ne,
          ))
