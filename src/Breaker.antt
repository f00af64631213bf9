-- ===== src/Breaker.antt =====
-- pkg/breaker/breaker.go: the automated circuit breaker. A method takes the time that `b.now()`
-- returns, where it reads the clock, and returns the new breaker with its result. The mutex makes each
-- call atomic, so a history is a list of calls.
pub mod Decide
pub mod Cooldown
mod Examples
use neurosentry.Common.{
  Bool, Floats, Map, Option, Str, Time, [], false, fire_key, get, if◌then◌else◌, inc64, int_eq,
  is_empty, itoa, leb_ℤ, ltb, min, nat_eq, none, not, pos, put, some, str, str_eq, sub, true, ℕ, ℤ,
  ◌++◌, ◌∷◌,
}

-- severityRank: a missing severity reads as the zero of the map's value type.
pub severity_ranks : Map Str ℕ
severity_ranks =
    (str "info", 0)
    ∷ (str "low", 1)
    ∷ (str "medium", 2)
    ∷ (str "high", 3)
    ∷ (str "critical", 4)
    ∷ []

pub rank_or_zero : Option ℕ → ℕ
rank_or_zero none = 0
rank_or_zero (some r) = r

pub severity_rank : Str → ℕ
unfolding severity_ranks rank_or_zero get
severity_rank s = rank_or_zero (get severity_ranks s)

pub record Decision : Type 0 where
  pub trip : Bool
  pub action : Str
  pub params : Map Str Str
  pub reason : Str

-- Decision{Trip: false, Reason: reason}
abbrev pub stay : Str → Decision
stay why = record { trip = false; action = []; params = []; reason = why }

-- The action of a rule: `if a, ok := RuleActions[ruleID]; ok && a != ""`.
abbrev pub override : Str → Option Str → Str
override default none = default
override default (some a) = if is_empty a then default else a

module _ (fl : Floats) where
  open fl use {Float, lt, le, lit, seconds}

  pub record Policy : Type 0 where
    pub enabled : Bool
    pub min_severity : Str
    pub default_action : Str
    pub rule_actions : Map Str Str
    pub cooldown_secs : Float

  pub record Breaker : Type 0 where
    pub policy : Policy
    pub last_trip : Map Str Time
    pub trip_count : ℤ

  -- New
  pub new : Policy → Breaker
  new p = record {
    policy = record p {
      min_severity = if is_empty p.min_severity then str "critical" else p.min_severity;
      default_action = if is_empty p.default_action then str "untrust_pid" else p.default_action;
      cooldown_secs = if le p.cooldown_secs (lit 0) then lit 60 else p.cooldown_secs;
    };
    last_trip = [];
    trip_count = pos 0;
  }

  -- SetArmed
  pub set_armed : Breaker → Bool → Breaker
  set_armed b on = record b { policy = record b.policy { enabled = on } }

  -- The response that a rule's findings get.
  pub action_for : Policy → Str → Str
  action_for p rule = override p.default_action (get p.rule_actions rule)

  -- `if last, seen := b.lastTrip[key]; seen { if now.Sub(last).Seconds() < CooldownSecs {...} }`
  pub cooling : Floats.Float fl → Time → Option Time → Bool
  cooling secs now none = false
  cooling secs now (some last) = lt (seconds (sub now last)) secs

  -- The part of Evaluate after its guards.
  pub fire : Breaker → Time → Str → Str → ℤ → Breaker × Decision
  unfolding cooling action_for
  fire b now severity rule pid =
      let action = action_for b.policy rule in
      let key = fire_key pid action in
      if cooling b.policy.cooldown_secs now (get b.last_trip key)
      then (b, stay (str "cooldown"))
      else (
        record b { last_trip = put b.last_trip key now; trip_count = inc64 b.trip_count },
        record {
          trip = true;
          action = action;
          params = (str "pid", itoa pid) ∷ [];
          reason = str "auto-response: " ++ severity ++ str " finding " ++ rule;
        },
      )

  -- Evaluate
  pub evaluate : Breaker → Time → Str → Str → ℤ → Breaker × Decision
  unfolding fire severity_rank
  evaluate b now severity rule pid =
      if not b.policy.enabled
      then (b, stay (str "breaker disarmed"))
      else if leb_ℤ pid (pos 0)
      then (b, stay (str "no target pid"))
      else if ltb (severity_rank severity) (severity_rank b.policy.min_severity)
      then (b, stay (str "below min severity"))
      else fire b now severity rule pid
