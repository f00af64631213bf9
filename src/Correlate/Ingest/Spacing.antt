-- ===== src/Correlate/Ingest/Spacing.antt =====
-- pkg/correlate/correlate.go: the cooldown of a rule and a process over any sequence of calls.
use neurosentry.Correlate.Ingest.Loop.{Fired, try_rule_cases}
use neurosentry.Correlate.Ingest.Frame.{try_rules-SameFrame}
use neurosentry.Correlate.Ingest.Reap.{forget_fired-other}
use neurosentry.Correlate.Ingest.Ceilings.{Call, enables, ingests, learns, reaps, step}
use neurosentry.Common.{
  All, Bool, Duration, List, Map, Option, Str, Time, [], delete, false, fire_key, get, get-put, has,
  if_cases, if_related, if◌then◌else◌, int_eq, leb, length, map, nat_eq, none, put, refl, some,
  str_eq, subst, sym, take, ℕ, ℤ, ◌==◌, ◌∙◌, ◌∷◌, ◌≡◌, ◌≢◌,
}
use neurosentry.Correlate.{Finding, Rule, Signal}
use neurosentry.Correlate.Engine.{Correlator, new_correlator, set_enabled, set_learning_mode}
use neurosentry.Correlate.Sessions.{
  Aged, Tracked, age, drop_count, drop_sessions, evict, forget_fired, make_room, reap,
  record_signal, session_signals, sort_aged,
}
use neurosentry.Correlate.Ingest.{
  add_found, cooling, finding, fire, ingest, stamped, try_rule, try_rules,
}

-- When the newest finding under the key came, in a log whose newest finding is first.
pub latest : Str → List Finding → Option Time
latest key [] = none
latest key (f ∷ fs) = if fire_key f.pid f.rule == key then some f.timestamp else latest key fs

-- Each finding came when the one before it by the same rule about the same process had cooled down.
abbrev pub Spaced : (Str → Duration) → List Finding → Type 0
Spaced window_of [] = Unit
Spaced window_of (f ∷ fs) =
    (cooling (window_of f.rule) f.timestamp (latest (fire_key f.pid f.rule) fs) ≡ false)
    × Spaced window_of fs

-- The findings of a call, the oldest first, put on the log.
pub log_all : List Finding → List Finding → List Finding
log_all [] log = log
log_all (f ∷ fs) log = log_all fs (f ∷ log)

-- A call, and the log of the findings that calls have returned.
pub log_step : Correlator × List Finding → Call → Correlator × List Finding
log_step (c, log) (ingests now s) = ((ingest c now s).0, log_all (ingest c now s).1 log)
log_step (c, log) (reaps pid) = (step c (reaps pid), log)
log_step (c, log) (enables id on) = (step c (enables id on), log)
log_step (c, log) (learns on) = (step c (learns on), log)

pub log_run : Correlator × List Finding → List Call → Correlator × List Finding
log_run s [] = s
log_run s (x ∷ xs) = log_run (log_step s x) xs

module _ (window_of : Str → Duration) where
  -- Rules have names, and rules of one name have one window.
  abbrev pub Named : Rule → Type 0
  Named r = (r.name ≢ []) × (r.window ≡ window_of r.name)

  record Logged (last_fired : Map Str Time) (log : List Finding) : Type 0 where
    agrees :
        (pid : ℤ) (rule : Str)
        → rule ≢ []
        → get last_fired (fire_key pid rule) ≡ latest (fire_key pid rule) log
    spaced : Spaced window_of log

  forgotten :
      (m : Map Str Time) (pid : ℤ) (log : List Finding)
      → Logged m log
      → Logged (forget_fired m pid) log
  forgotten m pid log l = record {
    agrees = λ p rule named. forget_fired-other m pid p rule named ∙ l.agrees p rule named;
    spaced = l.spaced;
  }

  drop_sessions-Logged :
      (t : Tracked) (as_ : List Aged) (log : List Finding)
      → Logged t.1 log
      → Logged (drop_sessions t as_).1 log
  unfolding drop_sessions
  drop_sessions-Logged t [] log l = l
  drop_sessions-Logged (sessions, m) ((pid, last) ∷ as_) log l =
      drop_sessions-Logged (delete sessions pid, forget_fired m pid) as_ log (forgotten m pid log l)

  make_room-Logged :
      (max : ℕ) (pid : ℤ) (t : Tracked) (log : List Finding)
      → Logged t.1 log
      → Logged (make_room max pid t).1 log
  unfolding make_room evict
  make_room-Logged max pid t log l =
      if_cases (λ (u : Tracked). Logged u.1 log) (has t.0 pid) _ _ (λ _. l)
        λ _.
          if_cases (λ (u : Tracked). Logged u.1 log) (leb max (length t.0)) _ _
            (λ _.
              drop_sessions-Logged t (take (drop_count (length t.0)) (sort_aged (map age t.0))) log
                l)
            (λ _. l)

  Fired-Logged :
      (c : Correlator) (s : Signal) (signals : List Signal) (r : Rule) (chain : List Signal)
      (log : List Finding)
      → Named r
      → Fired c s signals r chain
      → Logged c.last_fired log
      → Logged (put c.last_fired (fire_key s.pid r.name) s.timestamp) (finding r s chain ∷ log)
  unfolding finding latest
  Fired-Logged c s signals r chain log named f l = record {
    agrees = λ pid rule some_name. rw get-put (
        if_related ◌≡◌ (fire_key s.pid r.name == fire_key pid rule) _ _ _ _ _ refl (λ _. refl)
          (λ _. l.agrees pid rule some_name));
    spaced = (rw (← named.1, ← l.agrees s.pid r.name named.0) f.cooled, l.spaced);
  }

  abbrev StillLogged : List Finding → Correlator × Option Finding → Type 0
  StillLogged log o = Logged (o.0).last_fired (log_all (add_found o.1 []) log)

  try_rule-Logged :
      (c : Correlator) (s : Signal) (signals : List Signal) (r : Rule) (log : List Finding)
      → Named r
      → Logged c.last_fired log
      → StillLogged log (try_rule c s signals r)
  unfolding fire log_all
  try_rule-Logged c s signals r log named l =
      try_rule_cases (StillLogged log) c s signals r l (λ chain m e. l)
        (λ chain f. Fired-Logged c s signals r chain log named f l)

  log_all-found :
      (o : Option Finding) (fs log : List Finding)
      → log_all (add_found o fs) log ≡ log_all fs (log_all (add_found o []) log)
  unfolding log_all
  log_all-found none fs log = refl
  log_all-found (some f) fs log = refl

  try_rules-Logged :
      (c : Correlator) (s : Signal) (signals : List Signal) (rs : List Rule) (log : List Finding)
      → All Named rs
      → Logged c.last_fired log
      → Logged (try_rules c s signals rs).0.last_fired (log_all (try_rules c s signals rs).1 log)
  unfolding try_rules log_all
  try_rules-Logged c s signals [] log named l = l
  try_rules-Logged c s signals (r ∷ rs) log named l =
      let one = try_rule c s signals r in
      let rest = try_rules one.0 s signals rs in
      subst (λ found. Logged (rest.0).last_fired found) (sym (log_all-found one.1 rest.1 log))
        (try_rules-Logged one.0 s signals rs (log_all (add_found one.1 []) log) named.1
          (try_rule-Logged c s signals r log named.0 l))

  record Inv (s : Correlator × List Finding) : Type 0 where
    named : All Named (s.0).rules
    logged : Logged (s.0).last_fired s.1

  log_step-Inv : (s : Correlator × List Finding) (x : Call) → Inv s → Inv (log_step s x)
  unfolding log_step step ingest record_signal reap set_enabled set_learning_mode
  log_step-Inv (c, log) (ingests now s) v =
      let s' = stamped now s in
      let c' = record_signal c s' in
      let signals = session_signals (get c'.sessions s'.pid) in
      record {
        named = subst (All Named) (sym (try_rules-SameFrame c' s' signals c'.rules).rules) v.named;
        logged =
            try_rules-Logged c' s' signals c'.rules log v.named
              (make_room-Logged c.max_sessions s'.pid (c.sessions, c.last_fired) log v.logged);
      }
  log_step-Inv (c, log) (reaps pid) v = record {
    named = v.named;
    logged = forgotten c.last_fired pid log v.logged;
  }
  log_step-Inv (c, log) (enables id on) v =
      if_cases (λ (r : Correlator × Bool). Inv (r.0, log)) (has c.enabled id) _ _
        (λ _. record { named = v.named; logged = v.logged }) (λ _. v)
  log_step-Inv (c, log) (learns on) v = record { named = v.named; logged = v.logged }

  log_run-Inv : (s : Correlator × List Finding) (xs : List Call) → Inv s → Inv (log_run s xs)
  unfolding log_run
  log_run-Inv s [] v = v
  log_run-Inv s (x ∷ xs) v = log_run-Inv (log_step s x) xs (log_step-Inv s x v)

  -- From a new engine, whatever is ingested, reaped and toggled, a finding comes no sooner after the last
  -- one by the same rule about the same process than the rule's window, by the signals' times. Every rule
  -- must have a name, and rules of one name one window.
  pub log_run-Spaced :
      (rules : List Rule) (xs : List Call)
      → All Named rules
      → Spaced window_of (log_run (new_correlator rules, []) xs).1
  unfolding new_correlator
  log_run-Spaced rules xs named =
      (log_run-Inv (new_correlator rules, []) xs
        (record {
          named = named;
          logged = record { agrees = λ pid rule n. unfold get latest in refl; spaced = tt };
        })).logged.spaced
