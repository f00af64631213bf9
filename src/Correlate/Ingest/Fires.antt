-- ===== src/Correlate/Ingest/Fires.antt =====
-- pkg/correlate/correlate.go: what a finding that Ingest returns is.
use mathlib.Core.List.{Perm}
use neurosentry.Correlate.Ingest.Loop.{Fired, try_rule_cases}
use neurosentry.Correlate.Ingest.Frame.{try_rule-SameFrame, try_rules-SameFrame}
use neurosentry.Correlate.Rules.Sound.{Accepts, evaluate_sound}
use neurosentry.Common.{
  All, All-imp, Bool, List, Map, Option, Str, Time, [], ap, get, if◌then◌else◌, inl, inr, int_eq,
  nat_eq, not, refl, str_eq, subst, true, ◌++◌, ◌||◌, ◌∷◌, ◌≡◌, ◌⊎◌,
}
use neurosentry.Correlate.{Finding, Rule, Signal}
use neurosentry.Correlate.Rules.{in_order, touched_by, windowed}
use neurosentry.Correlate.Engine.{Correlator, or_false}
use neurosentry.Correlate.Sessions.{record_signal, session_signals}
use neurosentry.Correlate.Ingest.{add_found, finding, ingest, stamped, try_rule, try_rules}

-- The rule is one of the list.
abbrev pub Among : Rule → List Rule → Type 0
Among r [] = ⊥
Among r (x ∷ xs) = (r ≡ x) ⊎ Among r xs

-- A finding about the signal's process, by an enabled rule that the signal touches, with a chain of
-- different signals of the process's window that the rule's matchers accept, in order if the rule is ordered.
pub record IsGenuine (enabled : Map Str Bool) (rules : List Rule) (s : Signal)
    (signals : List Signal) (f : Finding) : Type 0 where
  pub rule : Rule
  pub listed : Among rule rules
  pub on : or_false (get enabled rule.id) ≡ true
  pub touched : touched_by rule s ≡ true
  pub report : f ≡ finding rule s f.chain
  pub accepted : Accepts rule.all f.chain
  pub others : List Signal
  pub selected : Perm (windowed rule s.timestamp signals) (f.chain ++ others)
  pub causal : (not rule.ordered || in_order f.chain) ≡ true

abbrev AllGenuine : Map Str Bool → List Rule → Signal → List Signal → List Finding → Type 0
AllGenuine enabled rules s signals = All (IsGenuine enabled rules s signals)

Fired-IsGenuine :
    (c : Correlator) (s : Signal) (signals : List Signal) (r : Rule) (chain : List Signal)
    (rs : List Rule)
    → Fired c s signals r chain
    → IsGenuine c.enabled (r ∷ rs) s signals (finding r s chain)
unfolding finding
Fired-IsGenuine c s signals r chain rs f =
    let sound = evaluate_sound r signals s.timestamp chain f.matched in
    record {
      rule = r;
      listed = inl refl;
      on = f.on;
      touched = f.touched;
      report = refl;
      accepted = sound.0;
      others = sound.1.0;
      selected = sound.1.1;
      causal = sound.2;
    }

AllGenuine-weaken :
    (enabled : Map Str Bool) (r : Rule) (rs : List Rule) (s : Signal) (signals : List Signal)
    (fs : List Finding)
    → AllGenuine enabled rs s signals fs
    → AllGenuine enabled (r ∷ rs) s signals fs
AllGenuine-weaken enabled r rs s signals fs = All-imp fs (λ f g. record {
  rule = g.rule;
  listed = inr g.listed;
  on = g.on;
  touched = g.touched;
  report = g.report;
  accepted = g.accepted;
  others = g.others;
  selected = g.selected;
  causal = g.causal;
})

-- What one rule adds is genuine.
abbrev Adds : Correlator → Signal → List Signal → List Rule → Correlator × Option Finding → Type 0
Adds c s signals rs o =
    (fs : List Finding)
    → AllGenuine c.enabled rs s signals fs
    → AllGenuine c.enabled rs s signals (add_found o.1 fs)

try_rules-AllGenuine :
    (c : Correlator) (s : Signal) (signals : List Signal) (rs : List Rule)
    → AllGenuine c.enabled rs s signals (try_rules c s signals rs).1
unfolding try_rules
try_rules-AllGenuine c s signals [] = tt
try_rules-AllGenuine c s signals (r ∷ rs) =
    let one = try_rule c s signals r in
    let rest = (try_rules one.0 s signals rs).1 in
    try_rule_cases (Adds c s signals (r ∷ rs)) c s signals r (λ fs h. h) (λ chain m e fs h. h)
      (λ chain f fs h. (Fired-IsGenuine c s signals r chain rs f, h)) rest
      (AllGenuine-weaken c.enabled r rs s signals rest (
        subst (λ en. AllGenuine en rs s signals rest) (try_rule-SameFrame c s signals r).enabled
          (try_rules-AllGenuine one.0 s signals rs)))

-- Every finding that Ingest returns is about the signal's process, by an enabled rule of the engine that
-- the signal touches; its chain has one signal for each matcher of the rule, which accepts it; they are
-- different ones of those kept for the process within the rule's window, in order if the rule is ordered.
pub ingest-IsGenuine :
    (c : Correlator) (now : Time) (s : Signal)
    → let s' = stamped now s in
      All
        (IsGenuine c.enabled c.rules s'
          (session_signals (get (record_signal c s').sessions s'.pid)))
        (ingest c now s).1
unfolding ingest record_signal
ingest-IsGenuine c now s =
    let s' = stamped now s in
    let c' = record_signal c s' in
    try_rules-AllGenuine c' s' (session_signals (get c'.sessions s'.pid)) c'.rules

-- The sink is given every finding of the call, and none in learning mode.
pub ingest_delivery :
    (c : Correlator) (now : Time) (s : Signal)
    → (ingest c now s).2 ≡ (if c.learning then [] else (ingest c now s).1)
unfolding ingest record_signal
ingest_delivery c now s =
    let s' = stamped now s in
    let c' = record_signal c s' in
    let signals = session_signals (get c'.sessions s'.pid) in
    ap (λ b. if b then [] else (try_rules c' s' signals c'.rules).1)
      (try_rules-SameFrame c' s' signals c'.rules).learning
