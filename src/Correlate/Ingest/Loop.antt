-- ===== src/Correlate/Ingest/Loop.antt =====
-- pkg/correlate/correlate.go: case rules for the loop of Ingest over the rules.
use neurosentry.Common.{
  List, Map, Option, Str, arith, false, fire_key, get, if_cases, int_eq, nat_eq, none, not, refl,
  some, str_eq, true, ◌≡◌,
}
use neurosentry.Correlate.{Finding, Rule, Signal}
use neurosentry.Correlate.Rules.{evaluate, touched_by}
use neurosentry.Correlate.Engine.{Correlator, Suppression, or_false, suppressed}
use neurosentry.Correlate.Ingest.{cooling, finding, fire, fire_unless, try_rule}

-- What a rule must pass for its finding to fire.
pub record Fired (c : Correlator) (s : Signal) (signals : List Signal) (r : Rule)
    (chain : List Signal) : Type 0 where
  pub on : or_false (get c.enabled r.id) ≡ true
  pub touched : touched_by r s ≡ true
  pub matched : evaluate r signals s.timestamp ≡ some chain
  pub cooled : cooling r.window s.timestamp (get c.last_fired (fire_key s.pid r.name)) ≡ false
  pub unsuppressed : suppressed c.suppressions (finding r s chain) ≡ none

module _ {ℓ} (P : Correlator × Option Finding → Type ℓ) (c : Correlator) (s : Signal)
    (signals : List Signal) (r : Rule) (stays : P (c, none))
    (silenced : (chain : List Signal) (m : Map Str Suppression)
      → suppressed c.suppressions (finding r s chain) ≡ some m
      → P (record c { suppressions = m }, none))
    (fires : (chain : List Signal)
      → Fired c s signals r chain
      → P (fire c r s (finding r s chain), some (finding r s chain))) where
  -- A rule leaves the engine as it was, bumps a suppression, or fires.
  pub try_rule_cases : P (try_rule c s signals r)
  unfolding try_rule fire_unless
  try_rule_cases =
      if_cases P (not (or_false (get c.enabled r.id))) _ _ (λ _. stays)
        λ on.
          if_cases P (not (touched_by r s)) _ _ (λ _. stays)
            λ touched. chained (evaluate r signals s.timestamp) refl (ground arith) (ground arith)
    where
      decided :
          (chain : List Signal) (o : Option (Map Str Suppression))
          → suppressed c.suppressions (finding r s chain) ≡ o
          → (o ≡ none → Fired c s signals r chain)
          → P (elim o [
            | some m ↦ (record c { suppressions = m }, none)
            | none ↦ (fire c r s (finding r s chain), some (finding r s chain))
          ])
      decided chain none e f = fires chain (f refl)
      decided chain (some m) e f = silenced chain m e

      chained :
          (o : Option (List Signal))
          → evaluate r signals s.timestamp ≡ o
          → or_false (get c.enabled r.id) ≡ true
          → touched_by r s ≡ true
          → P (elim o [ none ↦ (c, none) | some chain ↦ fire_unless c r s chain ])
      chained none e on touched = stays
      chained (some chain) e on touched =
          if_cases P (cooling r.window s.timestamp (get c.last_fired (fire_key s.pid r.name))) _ _
            (λ _. stays)
            (λ cooled. decided chain (suppressed c.suppressions (finding r s chain)) refl (λ quiet.
              record {
                on = on;
                touched = touched;
                matched = e;
                cooled = cooled;
                unsuppressed = quiet;
              }))
