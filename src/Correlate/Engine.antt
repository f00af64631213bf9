-- ===== src/Correlate/Engine.antt =====
-- pkg/correlate/correlate.go and suppress.go: the engine that ingests signals and fires findings. A
-- method that reads the clock takes its value. A session or a suppression is held by pointer in its map
-- only, so a change through the pointer is a `put`. The sink is the list of findings that it is given.
use mathlib.Core.Option
use neurosentry.Common.{
  Bool, Duration, List, Map, Option, Str, Time, [], any, false, has, if◌then◌else◌, inc64, int_eq,
  is_empty, last_n, leb_ℤ, length, ltb_ℤ, nat_eq, none, not, pos, pos_part, put, second, some,
  str_eq, true, ℕ, ℤ, ◌&&◌, ◌*◌, ◌==◌, ◌||◌, ◌∷◌,
}
use neurosentry.Correlate.{Finding, Rule, Signal, attr}

-- SuppressionSpec (suppress.go)
pub record SuppressionSpec : Type 0 where
  pub id : Str
  pub rule_id : Str
  pub attr_key : Str
  pub attr_pattern : Str
  pub reason : Str

-- suppression (suppress.go); the compiled pattern is the test that it makes.
pub record Suppression : Type 0 where
  pub spec : SuppressionSpec
  pub re : Str → Bool
  pub matched : ℤ

-- pidSession
pub record PidSession : Type 0 where
  pub signals : List Signal
  pub last_active : Time

pub record Correlator : Type 0 where
  pub rules : List Rule
  pub enabled : Map Str Bool
  pub fire_count : Map Str ℤ
  pub custom : Map Str Bool
  pub suppressions : Map Str Suppression
  pub learning : Bool
  pub sessions : Map ℤ PidSession
  pub max_sessions : ℕ
  pub last_fired : Map Str Time
  pub max_window : Duration
  pub recent : List Finding
  pub max_recent : ℕ
  pub recent_signals : List Signal
  pub max_recent_signals : ℕ

abbrev pub session_signal_cap : ℕ
session_signal_cap = 256

-- The reads of Go maps whose missing entries are the zero value.
abbrev pub or_false : Option Bool → Bool
or_false none = false
or_false (some b) = b

abbrev pub or_zero : Option ℤ → ℤ
or_zero none = pos 0
or_zero (some n) = n

abbrev pub widest : Duration → List Rule → Duration
widest w [] = w
widest w (r ∷ rs) = widest (if ltb_ℤ w r.window then r.window else w) rs

abbrev pub enable_all : Map Str Bool → List Rule → Map Str Bool
enable_all m [] = m
enable_all m (r ∷ rs) = enable_all (put m r.id true) rs

-- NewCorrelator
unfoldable pub new_correlator : List Rule → Correlator
new_correlator rules = record {
  rules = rules;
  enabled = enable_all [] rules;
  fire_count = [];
  custom = [];
  suppressions = [];
  learning = false;
  sessions = [];
  max_sessions = 8192;
  last_fired = [];
  max_window = widest (pos (60 * second)) rules;
  recent = [];
  max_recent = 5000;
  recent_signals = [];
  max_recent_signals = 20000;
}

-- SetEnabled
unfoldable pub set_enabled : Correlator → Str → Bool → Correlator × Bool
set_enabled c id on =
    if has c.enabled id then (record c { enabled = put c.enabled id on }, true) else (c, false)

-- SetLearningMode
unfoldable pub set_learning_mode : Correlator → Bool → Correlator
set_learning_mode c on = record c { learning = on }

-- RecentFindings and RecentSignals: up to `limit` of the newest.
unfoldable pub newest {ℓ} : {A : Type ℓ} → ℤ → List A → List A
newest limit xs =
    if leb_ℤ limit (pos 0) || ltb_ℤ (pos (length xs)) limit then xs else last_n (pos_part limit) xs

-- suppression.matches
unfoldable pub suppresses : Suppression → Finding → Bool
suppresses s f =
    if not (is_empty s.spec.rule_id) && not (s.spec.rule_id == f.rule_id)
    then false
    else any (λ sig. s.re (attr sig s.spec.attr_key)) f.chain

-- suppressedLocked: the map after the count of the first suppression that matches, if one does.
unfoldable pub suppressed : Map Str Suppression → Finding → Option (Map Str Suppression)
unfolding suppresses
suppressed [] f = none
suppressed ((id, s) ∷ m) f =
    let rest = suppressed m f in
    if suppresses s f
    then some ((id, record s { matched = inc64 s.matched }) ∷ m)
    else Option.map (λ m'. (id, s) ∷ m') rest
