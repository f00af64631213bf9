-- ===== src/Correlate/Ingest/Ceilings.antt =====
-- pkg/correlate/correlate.go: what the engine keeps stays bounded, whatever it ingests.
use neurosentry.Correlate.Ingest.Loop.{try_rule_cases}
use neurosentry.Correlate.Ingest.Frame.{try_rules-SameFrame}
use neurosentry.Correlate.Sessions.Bounds.{
  Capped, IsBounded, delete-Capped, record_signal-IsBounded,
}
use neurosentry.Common.{
  Bool, List, Option, Str, Time, [], arith, get, has, if_cases, int_eq, length, length-delete-le,
  length-last_n, nat_eq, none, refl, some, str_eq, ℤ, ◌++◌, ◌∙◌, ◌∷◌, ◌≡◌, ◌≤◌,
}
use neurosentry.Correlate.{Finding, Rule, Signal}
use neurosentry.Correlate.Engine.{
  Correlator, PidSession, new_correlator, set_enabled, set_learning_mode,
}
use neurosentry.Correlate.Sessions.{reap, record_signal, session_signals}
use neurosentry.Correlate.Ingest.{finding, fire, ingest, stamped, try_rule, try_rules}

none-ne-some : {sess : PidSession} → none ≡ some sess → ⊥
none-ne-some e = cc

fire-IsBounded :
    (c : Correlator) (r : Rule) (s : Signal) (f : Finding) → IsBounded c → IsBounded (fire c r s f)
unfolding fire
fire-IsBounded c r s f b = record {
  findings = omega (arith, length-last_n c.max_recent (c.recent ++ f ∷ []));
  signals = b.signals;
  tracked = b.tracked;
  histories = b.histories;
}

try_rules-IsBounded :
    (c : Correlator) (s : Signal) (signals : List Signal) (rs : List Rule)
    → IsBounded c
    → IsBounded (try_rules c s signals rs).0
unfolding try_rules
try_rules-IsBounded c s signals [] b = b
try_rules-IsBounded c s signals (r ∷ rs) b =
    try_rules-IsBounded (try_rule c s signals r).0 s signals rs (
      try_rule_cases (λ o. IsBounded o.0) c s signals r b
        (λ chain m _. record {
          findings = b.findings;
          signals = b.signals;
          tracked = b.tracked;
          histories = b.histories;
        })
        (λ chain _. fire-IsBounded c r s (finding r s chain) b))

-- The calls that change an engine, but for those that change its rules.
pub data Call : Type 0 where
  ingests : Time → Signal → Call
  reaps : ℤ → Call
  enables : Str → Bool → Call
  learns : Bool → Call

unfoldable pub step : Correlator → Call → Correlator
step c (ingests now s) = (ingest c now s).0
step c (reaps pid) = reap c pid
step c (enables id on) = (set_enabled c id on).0
step c (learns on) = set_learning_mode c on

pub run : Correlator → List Call → Correlator
run c [] = c
run c (x ∷ xs) = run (step c x) xs

pub record Fits (c : Correlator) : Type 0 where
  pub sizes : (c.max_sessions ≡ 8192) × (c.max_recent ≡ 5000) × (c.max_recent_signals ≡ 20000)
  pub bounded : IsBounded c

step-Fits : (c : Correlator) (x : Call) → Fits c → Fits (step c x)
unfolding step ingest reap set_enabled set_learning_mode
step-Fits c (ingests now s) f =
    let s' = stamped now s in
    let c' = record_signal c s' in
    let frame = try_rules-SameFrame c' s' (session_signals (get c'.sessions s'.pid)) c'.rules in
    record {
      sizes =
          unfold record_signal in
          (
            frame.max_sessions ∙ f.sizes.0,
            frame.max_recent ∙ f.sizes.1,
            frame.max_recent_signals ∙ f.sizes.2,
          );
      bounded =
          try_rules-IsBounded c' s' _ c'.rules
            (record_signal-IsBounded c s' (omega (arith, f.sizes.0)) f.bounded);
    }
step-Fits c (reaps pid) f = record {
  sizes = f.sizes;
  bounded = record {
    findings = f.bounded.findings;
    signals = f.bounded.signals;
    tracked = omega (arith, length-delete-le c.sessions pid, f.bounded.tracked);
    histories = delete-Capped c.sessions pid f.bounded.histories;
  };
}
step-Fits c (enables id on) f =
    if_cases (λ (r : Correlator × Bool). Fits r.0) (has c.enabled id) _ _
      (λ _. record {
        sizes = f.sizes;
        bounded = record {
          findings = f.bounded.findings;
          signals = f.bounded.signals;
          tracked = f.bounded.tracked;
          histories = f.bounded.histories;
        };
      })
      (λ _. f)
step-Fits c (learns on) f = record {
  sizes = f.sizes;
  bounded = record {
    findings = f.bounded.findings;
    signals = f.bounded.signals;
    tracked = f.bounded.tracked;
    histories = f.bounded.histories;
  };
}

run-Fits : (c : Correlator) (xs : List Call) → Fits c → Fits (run c xs)
unfolding run
run-Fits c [] f = f
run-Fits c (x ∷ xs) f = run-Fits (step c x) xs (step-Fits c x f)

new-Fits : (rules : List Rule) → Fits (new_correlator rules)
unfolding new_correlator
new-Fits rules = record {
  sizes = (refl, refl, refl);
  bounded = record {
    findings = omega arith;
    signals = omega arith;
    tracked = omega arith;
    histories = λ pid sess e. absurd (none-ne-some {sess = sess} (unfold get in e));
  };
}

-- From a new engine, whatever is ingested, reaped and toggled, in any order: the engine keeps at most
-- 8192 sessions of at most 256 signals each, 5000 findings and 20000 raw signals.
pub run_ceilings :
    (rules : List Rule) (xs : List Call) (pid : ℤ)
    → let c = run (new_correlator rules) xs in
      (length c.sessions ≤ 8192)
      × (length (session_signals (get c.sessions pid)) ≤ 256)
      × (length c.recent ≤ 5000)
      × (length c.recent_signals ≤ 20000)
run_ceilings rules xs pid =
    let f = run-Fits (new_correlator rules) xs (new-Fits rules) in
    (
      omega (arith, f.bounded.tracked, f.sizes.0),
      at_most f.bounded.histories (get (run (new_correlator rules) xs).sessions pid) refl,
      omega (arith, f.bounded.findings, f.sizes.1),
      omega (arith, f.bounded.signals, f.sizes.2),
    )
  where
    at_most :
        Capped (run (new_correlator rules) xs).sessions
        → (o : Option PidSession) → get (run (new_correlator rules) xs).sessions pid ≡ o
        → length (session_signals o) ≤ 256
    at_most h none e = omega arith
    at_most h (some sess) e = h pid sess e
