-- ===== src/Correlate/Ingest/Frame.antt =====
-- pkg/correlate/correlate.go: what the loop of Ingest over the rules leaves alone.
use neurosentry.Correlate.Ingest.Loop.{try_rule_cases}
use neurosentry.Common.{List, [], int_eq, nat_eq, refl, str_eq, ◌∙◌, ◌∷◌, ◌≡◌}
use neurosentry.Correlate.{Rule, Signal}
use neurosentry.Correlate.Engine.{Correlator}
use neurosentry.Correlate.Ingest.{fire, try_rule, try_rules}

-- The parts of the state that the loop over the rules leaves alone.
pub record SameFrame (c d : Correlator) : Type 0 where
  pub rules : d.rules ≡ c.rules
  pub enabled : d.enabled ≡ c.enabled
  pub learning : d.learning ≡ c.learning
  pub sessions : d.sessions ≡ c.sessions
  pub max_sessions : d.max_sessions ≡ c.max_sessions
  pub max_recent : d.max_recent ≡ c.max_recent
  pub max_recent_signals : d.max_recent_signals ≡ c.max_recent_signals

SameFrame-refl : (c : Correlator) → SameFrame c c
SameFrame-refl c = record {
  rules = refl;
  enabled = refl;
  learning = refl;
  sessions = refl;
  max_sessions = refl;
  max_recent = refl;
  max_recent_signals = refl;
}

SameFrame-trans : {c d e : Correlator} → SameFrame c d → SameFrame d e → SameFrame c e
SameFrame-trans f g = record {
  rules = g.rules ∙ f.rules;
  enabled = g.enabled ∙ f.enabled;
  learning = g.learning ∙ f.learning;
  sessions = g.sessions ∙ f.sessions;
  max_sessions = g.max_sessions ∙ f.max_sessions;
  max_recent = g.max_recent ∙ f.max_recent;
  max_recent_signals = g.max_recent_signals ∙ f.max_recent_signals;
}

pub try_rule-SameFrame :
    (c : Correlator) (s : Signal) (signals : List Signal) (r : Rule)
    → SameFrame c (try_rule c s signals r).0
unfolding fire
try_rule-SameFrame c s signals r =
    try_rule_cases (λ o. SameFrame c o.0) c s signals r (SameFrame-refl c)
      (λ chain m _. record {
        rules = refl;
        enabled = refl;
        learning = refl;
        sessions = refl;
        max_sessions = refl;
        max_recent = refl;
        max_recent_signals = refl;
      })
      (λ chain _. record {
        rules = refl;
        enabled = refl;
        learning = refl;
        sessions = refl;
        max_sessions = refl;
        max_recent = refl;
        max_recent_signals = refl;
      })

pub try_rules-SameFrame :
    (c : Correlator) (s : Signal) (signals : List Signal) (rs : List Rule)
    → SameFrame c (try_rules c s signals rs).0
unfolding try_rules
try_rules-SameFrame c s signals [] = SameFrame-refl c
try_rules-SameFrame c s signals (r ∷ rs) =
    SameFrame-trans (try_rule-SameFrame c s signals r)
      (try_rules-SameFrame (try_rule c s signals r).0 s signals rs)
