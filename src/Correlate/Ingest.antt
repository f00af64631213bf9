-- ===== src/Correlate/Ingest.antt =====
-- pkg/correlate/correlate.go: Ingest, the loop over the rules and the findings.
pub mod Loop
pub mod Frame
pub mod Fires
pub mod Ceilings
pub mod Reap
pub mod Spacing
use neurosentry.Common.{
  Bool, Duration, List, Option, Time, [], false, fire_key, get, if◌then◌else◌, inc64, int_eq,
  is_zero, last_n, ltb_ℤ, nat_eq, none, not, put, some, str_eq, sub, ◌++◌, ◌∷◌,
}
use neurosentry.Correlate.{Finding, Rule, Signal}
use neurosentry.Correlate.Rules.{evaluate, touched_by}
use neurosentry.Correlate.Engine.{Correlator, or_false, or_zero, suppressed}
use neurosentry.Correlate.Sessions.{record_signal, session_signals}

pub finding : Rule → Signal → List Signal → Finding
finding r s chain = record {
  timestamp = s.timestamp;
  rule_id = r.id;
  rule = r.name;
  pid = s.pid;
  tenant_id = s.tenant_id;
  severity = r.severity;
  technique = r.technique;
  description = r.description;
  chain = chain;
}

-- `last, seen := c.lastFired[key]; seen && s.Timestamp.Sub(last) < rule.Window`
pub cooling : Duration → Time → Option Time → Bool
cooling window now none = false
cooling window now (some last) = ltb_ℤ (sub now last) window

-- What a finding that fires leaves behind.
pub fire : Correlator → Rule → Signal → Finding → Correlator
fire c r s f = record c {
  last_fired = put c.last_fired (fire_key s.pid r.name) s.timestamp;
  fire_count = put c.fire_count r.id (inc64 (or_zero (get c.fire_count r.id)));
  recent = last_n c.max_recent (c.recent ++ f ∷ []);
}

-- The body of the loop over the rules, from the chain on.
pub fire_unless : Correlator → Rule → Signal → List Signal → Correlator × Option Finding
unfolding suppressed finding cooling fire
fire_unless c r s chain =
    if cooling r.window s.timestamp (get c.last_fired (fire_key s.pid r.name))
    then (c, none)
    else elim (suppressed c.suppressions (finding r s chain)) [
      | some m ↦ (record c { suppressions = m }, none)
      | none ↦ (fire c r s (finding r s chain), some (finding r s chain))
    ]

-- The body of the loop over the rules.
pub try_rule : Correlator → Signal → List Signal → Rule → Correlator × Option Finding
unfolding fire_unless touched_by
try_rule c s signals r =
    if not (or_false (get c.enabled r.id))
    then (c, none)
    else if not (touched_by r s)
    then (c, none)
    else elim (evaluate r signals s.timestamp) [
      | none ↦ (c, none)
      | some chain ↦ fire_unless c r s chain
    ]

abbrev pub add_found : Option Finding → List Finding → List Finding
add_found none fs = fs
add_found (some f) fs = f ∷ fs

-- The loop over the rules.
pub try_rules : Correlator → Signal → List Signal → List Rule → Correlator × List Finding
unfolding try_rule
try_rules c s signals [] = (c, [])
try_rules c s signals (r ∷ rs) =
    let one = try_rule c s signals r in
    let rest = try_rules one.0 s signals rs in (rest.0, add_found one.1 rest.1)

abbrev pub stamped : Time → Signal → Signal
stamped now s = if is_zero s.timestamp then record s { timestamp = now } else s

-- Ingest: the correlator after it, the findings that it returns, and those that the sink is given.
pub ingest : Correlator → Time → Signal → Correlator × List Finding × List Finding
unfolding record_signal try_rules
ingest c now s =
    let s' = stamped now s in
    let c' = record_signal c s' in
    let r = try_rules c' s' (session_signals (get c'.sessions s'.pid)) c'.rules in
    (r.0, r.1, if (r.0).learning then [] else r.1)
