-- ===== src/Fleet.antt =====
-- pkg/fleet/registry.go: the enrolled agents and the state that they converge to. An agent's record is
-- held by pointer in the map only, so a change through the pointer is a `put`; a random identifier and
-- the clock are arguments.
pub mod Canary
mod Examples
use neurosentry.Common.{
  Bool, Duration, Map, Option, Str, Time, [], before, delete, false, get, has, if◌then◌else◌, inc64,
  int_eq, is_empty, leb, leb_ℤ, length, ltb_ℤ, nat_eq, neg, none, not, pos, put, retain, second,
  some, str, str_eq, sub, true, xor_bits, ℕ, ℤ, ◌%◌, ◌*◌, ◌++◌, ◌+ℤ◌, ◌+◌, ◌^◌, ◌∷◌,
}

pub record AgentInfo : Type 0 where
  pub hostname : Str
  pub version : Str
  pub kernel : Str
  pub support : Str
  pub ready : Bool

pub record AgentRecord : Type 0 where
  pub id : Str
  pub info : AgentInfo
  pub first_seen : Time
  pub last_seen : Time
  pub beats : ℤ
  pub status : Str

pub record DesiredState : Type 0 where
  pub version : ℤ
  pub learning_mode : Option Bool
  pub min_severity : Str

pub record Rollout : Type 0 where
  pub desired : DesiredState
  pub percent : ℤ

pub record Registry : Type 0 where
  pub agents : Map Str AgentRecord
  pub desired : DesiredState
  pub pending : Option Rollout
  pub stale_after : Duration
  pub max_agents : ℕ

abbrev pub no_state : DesiredState
no_state = record { version = pos 0; learning_mode = none; min_severity = [] }

-- NewRegistry
pub new_registry : Duration → Registry
new_registry stale_after = record {
  agents = [];
  desired = no_state;
  pending = none;
  stale_after = if leb_ℤ stale_after (pos 0) then pos (90 * second) else stale_after;
  max_agents = 100000;
}

-- The loop of bucket, on a uint32.
pub fnv1a : ℕ → Str → ℕ
fnv1a h [] = h
fnv1a h (b ∷ bs) = fnv1a ((xor_bits 32 h b * 16777619) % 2 ^ 32) bs

-- bucket
pub bucket : Str → ℕ
unfolding fnv1a
bucket id = fnv1a 2166136261 id % 100

abbrev pub clamp : ℤ → ℤ
clamp percent =
    let low = if ltb_ℤ percent (pos 0) then pos 0 else percent in
    if ltb_ℤ (pos 100) low then pos 100 else low

-- StartRollout
pub start_rollout : Registry → DesiredState → ℤ → Registry × Rollout
start_rollout r d percent =
    let rollout : Rollout = record {
      desired = record d { version = inc64 r.desired.version };
      percent = clamp percent;
    } in
    (record r { pending = some rollout }, rollout)

-- The percentage that PromoteRollout goes to.
abbrev pub promoted : ℤ → ℤ → ℤ
promoted old percent =
    let capped = if ltb_ℤ (pos 100) percent then pos 100 else percent in
    if leb_ℤ capped old then pos 100 else capped

-- The part of PromoteRollout that has a rollout.
pub promote : Registry → Rollout → ℤ → Registry × Rollout
promote r p percent =
    let next = promoted p.percent percent in
    if leb_ℤ (pos 100) next
    then (
      record r { desired = p.desired; pending = none },
      record { desired = p.desired; percent = pos 100 },
    )
    else (record r { pending = some (record p { percent = next }) }, record p { percent = next })

-- PromoteRollout
pub promote_rollout : Registry → ℤ → Registry × Option Rollout
unfolding promote
promote_rollout r percent = elim r.pending [
  | none ↦ (r, none)
  | some p ↦ let q = promote r p percent in (q.0, some q.1)
]

-- AbortRollout
pub abort_rollout : Registry → Registry × Bool
abort_rollout r = elim r.pending [
  | none ↦ (r, false)
  | some p ↦ (record r { pending = none }, true)
]

-- DesiredForAgent
pub desired_for_agent : Registry → Str → DesiredState
unfolding bucket
desired_for_agent r id = elim r.pending [
  | none ↦ r.desired
  | some p ↦ if ltb_ℤ (pos (bucket id)) p.percent then p.desired else r.desired
]

-- SetDesired
pub set_desired : Registry → DesiredState → Registry × DesiredState
set_desired r d =
    let d' = record d { version = inc64 r.desired.version } in (record r { desired = d' }, d')

abbrev pub fresh_record : Str → Time → AgentInfo → AgentRecord
fresh_record id now info = record {
  id = id;
  info = info;
  first_seen = now;
  last_seen = now;
  beats = pos 0;
  status = [];
}

-- The record that Enroll and Heartbeat write to, with the state that the agent reports; `none` when the
-- registry is full.
pub attached : Registry → Str → Time → AgentInfo → Option AgentRecord
attached r id now info = elim (get r.agents id) [
  | some rec ↦ some (record rec { info = info; last_seen = now })
  | none ↦ if leb r.max_agents (length r.agents) then none else some (fresh_record id now info)
]

-- Enroll: the identifier that it returns, or `none` for its error.
pub enroll : Registry → Str → Str → Time → AgentInfo → Registry × Option Str
unfolding attached
enroll r fresh given now info =
    let id = if is_empty given then str "agt-" ++ fresh else given in
    elim (attached r id now info) [
      | none ↦ (r, none)
      | some rec ↦ (record r { agents = put r.agents id rec }, some id)
    ]

-- Heartbeat: `false` for its errors.
pub heartbeat : Registry → Str → Time → AgentInfo → Registry × Bool
unfolding attached
heartbeat r id now info = if is_empty id then (r, false) else elim (attached r id now info) [
  | none ↦ (r, false)
  | some rec ↦
      (record r { agents = put r.agents id (record rec { beats = inc64 rec.beats }) }, true)
]

-- EvictStale: the registry; the number evicted is what it lost.
pub evict_stale : Registry → Duration → Time → Registry
evict_stale r older_than now = if leb_ℤ older_than (pos 0) then r else record r {
  agents =
      retain (λ id (rec : AgentRecord). not (before rec.last_seen (now +ℤ neg older_than)))
        r.agents;
}

-- Remove
pub remove : Registry → Str → Registry × Bool
remove r id =
    if not (has r.agents id) then (r, false) else (record r { agents = delete r.agents id }, true)

-- statusLocked: whether the agent is healthy.
pub is_healthy : Registry → AgentRecord → Time → Bool
is_healthy r rec now = leb_ℤ (sub now rec.last_seen) r.stale_after

-- The loop of RolloutStatus.
pub targeted : ℤ → Map Str AgentRecord → ℕ
unfolding bucket
targeted percent [] = 0
targeted percent ((id, rec) ∷ m) =
    let rest = targeted percent m in if ltb_ℤ (pos (bucket id)) percent then rest + 1 else rest

-- RolloutStatus: `none` when no rollout is active.
pub rollout_status : Registry → Option (Rollout × ℕ)
unfolding targeted
rollout_status r = elim r.pending [ none ↦ none | some p ↦ some (p, targeted p.percent r.agents) ]

pub record Stats : Type 0 where
  pub total : ℕ
  pub healthy : ℕ
  pub stale : ℕ

abbrev pub count_healthy : Registry → Time → Map Str AgentRecord → Stats → Stats
count_healthy r now [] st = st
count_healthy r now ((id, rec) ∷ m) st = count_healthy r now m (
    if is_healthy r rec now
    then record st { healthy = st.healthy + 1 }
    else record st { stale = st.stale + 1 })

-- Stats
pub stats : Registry → Time → Stats
stats r now =
    count_healthy r now r.agents (record { total = length r.agents; healthy = 0; stale = 0 })
