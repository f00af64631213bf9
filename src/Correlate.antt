-- ===== src/Correlate.antt =====
-- pkg/correlate: the cross-layer correlation engine. This file has the data of correlate.go and rules.go
-- that the engine's parts share.
pub mod Rules
pub mod Engine
pub mod Sessions
pub mod Ingest
pub mod Authoring
pub mod Predicates
pub mod Builtin
mod Examples
use neurosentry.Common.{
  Bool, Duration, List, Map, Option, Str, Time, [], get, int_eq, nat_eq, none, some, str_eq, ℤ,
}

-- Signal (correlate.go). A nil attribute map is `none`.
pub record Signal : Type 0 where
  pub timestamp : Time
  pub pid : ℤ
  pub tenant_id : Str
  pub layer : Str
  pub kind : Str
  pub attributes : Option (Map Str Str)
  pub severity : Str

abbrev pub or_empty : Option Str → Str
or_empty none = []
or_empty (some s) = s

-- Signal.Attr
pub attr : Signal → Str → Str
attr s key = elim s.attributes [ none ↦ [] | some m ↦ or_empty (get m key) ]

-- Finding (correlate.go)
pub record Finding : Type 0 where
  pub timestamp : Time
  pub rule_id : Str
  pub rule : Str
  pub pid : ℤ
  pub tenant_id : Str
  pub severity : Str
  pub technique : Str
  pub description : Str
  pub chain : List Signal

-- Matcher (rules.go); a nil Pred is `none`.
pub record Matcher : Type 0 where
  pub layer : Str
  pub kind : Str
  pub pred : Option (Signal → Bool)

-- MatcherSpec (rulespec.go)
pub record MatcherSpec : Type 0 where
  pub layer : Str
  pub kind : Str
  pub attr_key : Str
  pub attr_pattern : Str

-- Rule (rules.go)
pub record Rule : Type 0 where
  pub id : Str
  pub name : Str
  pub all : List Matcher
  pub window : Duration
  pub ordered : Bool
  pub severity : Str
  pub technique : Str
  pub mitre_attack : Str
  pub category : Str
  pub references : List Str
  pub description : Str
  pub rationale : Str
  pub remediation : List Str
  pub false_positives : List Str
  pub matchers : List MatcherSpec
