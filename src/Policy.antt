-- ===== src/Policy.antt =====
-- pkg/policy/loader.go: security policies, their validation, and the decision on an event. What is parsed
-- from YAML is an argument, and so is what package net makes of addresses and networks.
pub mod Events
pub mod Builtin
pub mod Advanced
pub mod Load
pub mod Decisions
pub mod Containers
pub mod Ancestry
mod Examples
use neurosentry.Common.{
  Bool, List, Map, Option, Str, [], any, false, has_prefix, if◌then◌else◌, int_eq, is_empty, length,
  nat_beq, nat_eq, none, not, some, str, str_eq, true, ℕ, ℤ, ◌&&◌, ◌+◌, ◌==◌, ◌||◌, ◌∷◌,
}
use neurosentry.Policy.Events.{
  Event, Fields, StructEvent, fields, other, struct, text_at, text_or_data,
}

abbrev pub Action : Type 0
Action = Str

abbrev pub action_allow : Action
action_allow = str "allow"

abbrev pub action_block : Action
action_block = str "block"

abbrev pub action_alert : Action
action_alert = str "alert"

pub record RuleCondition : Type 0 where
  pub type : Str
  pub extensions : List Str
  pub paths : List Str
  pub destinations : List Str
  pub size_threshold_mb : ℤ
  pub port : ℤ
  pub protocol : Str
  pub hash_mismatch : Bool
  pub cidr_match : Str

pub record Rule : Type 0 where
  pub name : Str
  pub description : Str
  pub enabled : Bool
  pub condition : RuleCondition
  pub action : Action
  pub severity : Str
  pub alert : Bool
  pub response : Str

pub record PolicyMetadata : Type 0 where
  pub name : Str
  pub description : Str
  pub severity : Str

pub record Response : Type 0 where
  pub enabled : Bool
  pub method : Str
  pub duration : Str
  pub require_kubernetes : Bool

pub record AlertConfig : Type 0 where
  pub webhook : Str
  pub silence_seconds : ℤ
  pub rate_limit : ℤ
  pub rate_limit_window : Str

pub record TrustedProcess : Type 0 where
  pub name : Str
  pub reason : Str

pub record TrustedContainer : Type 0 where
  pub label : Str

pub record TrustedConfig : Type 0 where
  pub processes : List TrustedProcess
  pub containers : List TrustedContainer

pub record ExemptionConfig : Type 0 where
  pub paths : List Str
  pub users : List Str

pub record Policy : Type 0 where
  pub version : Str
  pub metadata : PolicyMetadata
  pub rules : List Rule
  pub responses : Map Str Response
  pub alerts : AlertConfig
  pub trusted : TrustedConfig
  pub exemptions : ExemptionConfig

-- The errors of Validate, with the index of the rule.
pub data Fault : Type 0 where
  no_version no_rules : Fault
  no_name no_type no_action bad_action : ℕ → Fault

-- What is wrong with a rule, for the rule `i`.
pub check_rule : ℕ → Rule → Option Fault
check_rule i r =
    if is_empty r.name
    then some (no_name i)
    else if is_empty r.condition.type
    then some (no_type i)
    else if is_empty r.action
    then some (no_action i)
    else if not (r.action == action_allow)
        && (not (r.action == action_block) && not (r.action == action_alert))
    then some (bad_action i)
    else none

-- The loop of Validate, from the rule `i` on.
pub check_rules : ℕ → List Rule → Option Fault
unfolding check_rule
check_rules i [] = none
check_rules i (r ∷ rs) =
    let rest = check_rules (i + 1) rs in
    elim (check_rule i r) [ some fault ↦ some fault | none ↦ rest ]

-- Validate: `none` for no error.
pub validate : Policy → Option Fault
unfolding check_rules
validate p =
    if is_empty p.version
    then some no_version
    else if nat_beq (length p.rules) 0
    then some no_rules
    else check_rules 0 p.rules

-- What package net makes of text.
pub record Net : Type 1 where
  pub Ip : Type 0
  pub Network : Type 0
  pub parse_ip : Str → Option Ip
  pub parse_cidr : Str → Option Network
  pub has_ip : Network → Ip → Bool

-- The type of the event is one of two.
abbrev pub of_types : Str → Str → Str → Bool
of_types a b t = t == a || t == b

-- A list of the condition that is not empty must have an entry that passes.
abbrev pub demands : (Str → Bool) → List Str → Bool
demands p xs = nat_beq (length xs) 0 || any p xs

-- matchFileAccess, on a map.
pub match_file_fields : Rule → Fields → Bool
match_file_fields r ev =
    if not (of_types (str "file_access") (str "file_blocked") (text_at ev (str "type")))
    then false
    else if not (demands (λ ext. text_or_data ev (str "extension") == ext) r.condition.extensions)
    then false
    else if not
        (demands (λ path. has_prefix (text_or_data ev (str "file_path")) path) r.condition.paths)
    then false
    else true

-- matchFileAccessStruct, on a struct.
pub match_file_struct : Rule → StructEvent → Bool
match_file_struct r v = elim v.type [
  | none ↦ false
  | some t ↦
      if not (of_types (str "file_access") (str "file_blocked") t) then false else elim v.payload [
        | none ↦ true
        | some d ↦ elim d.extension [
          | none ↦ true
          | some field ↦ demands (λ ext. field == ext) r.condition.extensions
        ]
      ]
]

-- The type that matchPickleDangerous and matchModelLoad look for.
match_type : Str → Event → Bool
match_type t (fields ev) = text_at ev (str "type") == t
match_type t (struct v) = elim v.type [ none ↦ false | some u ↦ u == t ]
match_type t other = false

-- matchFileAccess
pub match_file_access : Rule → Event → Bool
unfolding match_file_fields match_file_struct
match_file_access r (fields ev) = match_file_fields r ev
match_file_access r (struct v) = match_file_struct r v
match_file_access r other = false

module _ (net : Net) where
  open net use {parse_ip, parse_cidr, has_ip}

  -- matchCIDR
  match_cidr : Str → Str → Bool
  match_cidr ip cidr = elim (parse_cidr cidr) [
    | none ↦ ip == cidr
    | some network ↦ elim (parse_ip ip) [ none ↦ false | some address ↦ has_ip network address ]
  ]

  -- matchNetworkEgress, on a map: an event without an address passes.
  match_net_fields : Rule → Fields → Bool
  unfolding match_cidr
  match_net_fields r ev =
      if not (of_types (str "network_allowed") (str "network_blocked") (text_at ev (str "type")))
      then false
      else if nat_beq (length r.condition.destinations) 0
      then true
      else if is_empty (text_or_data ev (str "dst_addr"))
      then true
      else any (λ cidr. match_cidr (text_or_data ev (str "dst_addr")) cidr) r.condition.destinations

  -- matchNetworkEgressStruct, on a struct.
  match_net_struct : StructEvent → Bool
  match_net_struct v = elim v.type [
    | none ↦ false
    | some t ↦ of_types (str "network_allowed") (str "network_blocked") t
  ]

  -- matchNetworkEgress
  pub match_network_egress : Rule → Event → Bool
  unfolding match_net_fields match_net_struct
  match_network_egress r (fields ev) = match_net_fields r ev
  match_network_egress r (struct v) = match_net_struct v
  match_network_egress r other = false

  -- Matches
  pub matches : Rule → Event → Bool
  unfolding match_file_access match_type match_network_egress
  matches r e =
      if not r.enabled
      then false
      else if r.condition.type == str "file_access"
      then match_file_access r e
      else if r.condition.type == str "pickle_dangerous"
      then match_type (str "pickle_dangerous") e
      else if r.condition.type == str "network_egress"
      then match_network_egress r e
      else if r.condition.type == str "model_load"
      then match_type (str "model_load") e
      else false

  -- The loop of Evaluate.
  pub decide : List Rule → Event → Action
  unfolding matches
  decide [] e = action_allow
  decide (r ∷ rs) e = let rest = decide rs e in if matches r e then r.action else rest

  -- Evaluate
  pub evaluate : Policy → Event → Action
  unfolding decide
  evaluate p e = decide p.rules e
