-- ===== src/Breaker/Cooldown.antt =====
-- Histories of pkg/breaker/breaker.go: the cooldown over any sequence of calls.
use mathlib.Core.Bool.{false≢true}
use neurosentry.Common.{
  Bool, Floats, List, Map, Str, Time, [], ap, arith, false, fire_key, get, get-put, if◌then◌else◌,
  inc64-wrap64, inl, inr, int_eq, length, nat_eq, pos, refl, str_eq, sym, wrap64, ℤ, ◌∙◌, ◌∷◌, ◌≡◌,
}
use neurosentry.Breaker.Decide.{evaluate_cases, trip_iff, trip_key}
use neurosentry.Breaker.{Breaker, Policy, action_for, cooling, evaluate, new, set_armed}

module _ (fl : Floats) where
  -- The calls that change a breaker.
  pub data Call : Type 0 where
    evaluates : Time → Str → Str → ℤ → Call
    arms : Bool → Call

  -- The trips so far, newest first: the key of each, and its time.
  abbrev pub Trips : Type 0
  Trips = Map Str Time

  pub step : Breaker fl × Trips → Call → Breaker fl × Trips
  step (b, trips) (evaluates now severity rule pid) =
      let r = evaluate fl b now severity rule pid in
      (r.0, if r.1.trip then (fire_key pid (action_for fl b.policy rule), now) ∷ trips else trips)
  step (b, trips) (arms on) = (set_armed fl b on, trips)

  pub run : Breaker fl × Trips → List Call → Breaker fl × Trips
  run s [] = s
  run s (c ∷ cs) = run (step s c) cs

  -- Each trip came when the one before it on the same key had cooled down.
  abbrev pub IsSpaced : Floats.Float fl → Trips → Type 0
  IsSpaced secs [] = Unit
  IsSpaced secs ((key, t) ∷ before_it) =
      (cooling fl secs t (get before_it key) ≡ false) × IsSpaced secs before_it

  pub record Inv (secs : Floats.Float fl) (s : Breaker fl × Trips) : Type 0 where
    pub tracked : (key : Str) → get s.0.last_trip key ≡ get s.1 key
    pub spaced : IsSpaced secs s.1
    pub period : s.0.policy.cooldown_secs ≡ secs
    pub counted : s.0.trip_count ≡ wrap64 (pos (length s.1))

  step-Inv :
      (secs : Floats.Float fl) (s : Breaker fl × Trips) (c : Call)
      → Inv secs s
      → Inv secs (step s c)
  unfolding step
  step-Inv secs (b, trips) (evaluates now severity rule pid) v =
      elim (evaluate_cases fl b now severity rule pid) [
        | inl (why, e) ↦ rw e v
        | inr e ↦ rw e (record {
          tracked = λ k. rw get-put (rw (v.tracked k) (unfold get in refl));
          spaced = (
            rw (← v.period, ← v.tracked (trip_key fl b now severity rule pid))
                ((trip_iff fl b now severity rule pid).0 (ap (λ r. r.1.trip) e)).1,
            v.spaced,
          );
          period = v.period;
          counted =
              rw v.counted (inc64-wrap64 (length trips) ∙ ap (λ n. wrap64 (pos n)) (omega arith));
        })
      ]
  step-Inv secs (b, trips) (arms on) v =
      unfold set_armed in
      record { tracked = v.tracked; spaced = v.spaced; period = v.period; counted = v.counted }

  run-Inv :
      (secs : Floats.Float fl) (s : Breaker fl × Trips) (cs : List Call)
      → Inv secs s
      → Inv secs (run s cs)
  unfolding run
  run-Inv secs s [] v = v
  run-Inv secs s (c ∷ cs) v = run-Inv secs (step s c) cs (step-Inv secs s c v)

  new-Inv : (p : Policy fl) → Inv (new fl p).policy.cooldown_secs (new fl p, [])
  unfolding new
  new-Inv p = record {
    tracked = λ k. refl;
    spaced = tt;
    period = refl;
    counted = unfold wrap64 in refl;
  }

  -- From a new breaker, whatever findings and arming calls follow, no two trips for the same process and
  -- action come closer than the cooldown.
  pub run-IsSpaced :
      (p : Policy fl) (cs : List Call)
      → IsSpaced (new fl p).policy.cooldown_secs (run (new fl p, []) cs).1
  run-IsSpaced p cs = (run-Inv _ (new fl p, []) cs (new-Inv p)).spaced

  -- The counter is the number of trips, as an int64.
  pub run-trip_count :
      (p : Policy fl) (cs : List Call)
      → let s = run (new fl p, []) cs in s.0.trip_count ≡ wrap64 (pos (length s.1))
  run-trip_count p cs = (run-Inv _ (new fl p, []) cs (new-Inv p)).counted

  abbrev pub NeverArms : List Call → Type 0
  NeverArms [] = Unit
  NeverArms (evaluates now severity rule pid ∷ cs) = NeverArms cs
  NeverArms (arms on ∷ cs) = (on ≡ false) × NeverArms cs

  disarmed_stays :
      (s : Breaker fl × Trips) (cs : List Call)
      → s.0.policy.enabled ≡ false
      → NeverArms cs
      → (run s cs).1 ≡ s.1
  unfolding run step
  disarmed_stays s [] off never = refl
  disarmed_stays (b, trips) (evaluates now severity rule pid ∷ cs) off never =
      elim (evaluate_cases fl b now severity rule pid) [
        | inl (why, e) ↦ rw (e, run) (disarmed_stays (b, trips) cs off never)
        | inr e ↦ absurd (
            false≢true
              (sym off ∙ ((trip_iff fl b now severity rule pid).0 (ap (λ r. r.1.trip) e)).0.armed))
      ]
  disarmed_stays (b, trips) (arms on ∷ cs) off never =
      disarmed_stays (set_armed fl b on, trips) cs (unfold set_armed in never.0) never.1

  -- A breaker built disarmed trips for no finding until someone arms it.
  pub disarmed_never_trips :
      (p : Policy fl) (cs : List Call)
      → p.enabled ≡ false
      → NeverArms cs
      → (run (new fl p, []) cs).1 ≡ []
  disarmed_never_trips p cs off never = disarmed_stays (new fl p, []) cs (unfold new in off) never
