-- ===== src/Breaker/Examples.antt =====
-- Concrete runs of pkg/breaker/breaker.go, with seconds counted in whole nanoseconds.
use neurosentry.Common.{
  Bool, Floats, List, [], false, fire_key, get, int_eq, itoa, itoa_loop, leb_ℤ, ltb_ℤ, nat_eq, pos,
  put, refl, second, str, str_beq, str_eq, sub, true, ℤ, ◌*◌, ◌+ℤ◌, ◌-ℤ◌, ◌↔◌, ◌∷◌, ◌≡◌,
}
use neurosentry.Breaker.{
  Breaker, Policy, action_for, cooling, evaluate, fire, new, rank_or_zero, severity_rank,
  severity_ranks,
}
use neurosentry.Breaker.Decide.{IsEligible, trip_iff, trip_key}
use neurosentry.Breaker.Cooldown.{Call, IsSpaced, arms, evaluates, run, run-IsSpaced}

abbrev whole : Floats
whole = record {
  Float = ℤ;
  lt = ltb_ℤ;
  le = leb_ℤ;
  add = ◌+ℤ◌;
  minus = ◌-ℤ◌;
  mul = λ a b. a;
  lit = λ n. pos (n * second);
  seconds = λ d. d;
}

abbrev policy_of : Bool → Policy whole
policy_of on = record {
  enabled = on;
  min_severity = str "high";
  default_action = str "untrust_pid";
  rule_actions = [];
  cooldown_secs = pos (60 * second);
}

abbrev armed : Breaker whole
armed = new whole (policy_of true)

-- The finding trips the breaker, and the same finding a second later does not.
trip_run :
    ((evaluate whole armed (pos second) (str "critical") (str "NS-1") (pos 7)).1.trip ≡ true)
    × ((evaluate whole
          (evaluate whole armed (pos second) (str "critical") (str "NS-1") (pos 7)).0
          (pos (2 * second))
          (str "critical")
          (str "NS-1")
          (pos 7)).1.trip
        ≡ false)
unfolding evaluate fire new action_for cooling severity_rank severity_ranks rank_or_zero get put
    str_beq fire_key itoa itoa_loop sub ◌-ℤ◌
trip_run = (refl, refl)

trip_iff_example :
    ((evaluate whole armed (pos second) (str "critical") (str "NS-1") (pos 7)).1.trip ≡ true) ↔ (
      IsEligible whole armed (str "critical") (pos 7)
      × (cooling whole armed.policy.cooldown_secs (pos second) (
            get armed.last_trip
              (trip_key whole armed (pos second) (str "critical") (str "NS-1") (pos 7)))
          ≡ false))
trip_iff_example = trip_iff whole armed (pos second) (str "critical") (str "NS-1") (pos 7)

abbrev calls : List (Call whole)
calls =
    evaluates (pos second) (str "critical") (str "NS-1") (pos 7)
    ∷ evaluates (pos (2 * second)) (str "critical") (str "NS-1") (pos 7)
    ∷ arms false
    ∷ []

run-IsSpaced_example :
    IsSpaced whole
      (new whole (policy_of true)).policy.cooldown_secs
      (run whole (new whole (policy_of true), []) calls).1
run-IsSpaced_example = run-IsSpaced whole (policy_of true) calls
