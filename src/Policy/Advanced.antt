-- ===== src/Policy/Advanced.antt =====
-- pkg/policy/advanced.go: matching with context, container identifiers, and the ancestors of a process.
use neurosentry.Common.{
  Bool, List, Option, Str, [], any, contains, drop, false, has_prefix, has_suffix, if◌then◌else◌,
  index, int_eq, is_empty, leb, leb_ℤ, length, ltb, ltb_ℤ, nat_beq, nat_eq, none, not, parse_int,
  parts, pos, some, split_byte, str, str_eq, suc, take, trim_prefix, trim_suffix, true, words, zero,
  ℕ, ℤ, ◌&&◌, ◌+◌, ◌==◌, ◌||◌, ◌∷◌,
}
use neurosentry.Policy.{Net, Rule}

pub record EventContext : Type 0 where
  pub pid : ℤ
  pub uid : ℤ
  pub cgroup : Str
  pub container_id : Str
  pub comm : Str
  pub command_line : Str
  pub exe_path : Str
  pub parents : List ℤ
  pub destination_ip : Str
  pub file_path : Str

-- matchFileAccess
file_in_context : Rule → EventContext → Bool
file_in_context r ctx =
    any (λ ext. has_suffix ctx.file_path ext) r.condition.extensions
    || any (λ path. has_prefix ctx.file_path path) r.condition.paths

module _ (net : Net) where
  open net use {parse_ip, parse_cidr, has_ip}

  -- matchCIDR of the evaluator
  in_cidr : Str → Str → Bool
  in_cidr cidr ip = if cidr == str "0.0.0.0/0" then true else elim (parse_ip ip) [
    | none ↦ false
    | some address ↦
        if not (contains cidr (str "/"))
        then cidr == ip
        else elim (parse_cidr cidr) [ none ↦ false | some network ↦ has_ip network address ]
  ]

  -- matchNetworkEgress of the evaluator
  net_in_context : Rule → EventContext → Bool
  unfolding in_cidr
  net_in_context r ctx = any (λ dest. in_cidr dest ctx.destination_ip) r.condition.destinations

  -- MatchesWithContext; matchModelLoad passes always.
  matches_with_context : Rule → EventContext → Bool
  unfolding file_in_context net_in_context
  matches_with_context r ctx =
      if not r.enabled
      then false
      else if r.condition.type == str "file_access"
      then file_in_context r ctx
      else if r.condition.type == str "network_egress"
      then net_in_context r ctx
      else if r.condition.type == str "model_load"
      then true
      else false

abbrev pub trusted_processes : List Str
trusted_processes =
    str "python"
    ∷ str "python3"
    ∷ str "python3.9"
    ∷ str "python3.10"
    ∷ str "python3.11"
    ∷ str "triton-server"
    ∷ str "torchserve"
    ∷ str "vllmserve"
    ∷ []

-- IsTrustedProcess
is_trusted_process : EventContext → Bool
is_trusted_process ctx =
    any (λ name. has_prefix ctx.comm name || has_prefix ctx.command_line name) trusted_processes

-- The first that is there.
abbrev pub or_else : Option Str → Option Str → Option Str
or_else none o = o
or_else (some s) o = some s

-- The short identifier, if there is enough of it.
unfoldable pub short_id : Str → Option Str
short_id id = if leb 12 (length id) then some (take 12 id) else none

-- What follows the first occurrence of the separator.
unfoldable pub text_after : Str → Str → Option Str
text_after s sep = elim (index s sep) [ none ↦ none | some i ↦ some (drop (i + length sep) s) ]

-- What precedes the next occurrence of the separator.
unfoldable pub text_before : Str → Str → Str
text_before s sep = elim (index s sep) [ none ↦ s | some i ↦ take i s ]

-- /docker/<container-id>
unfoldable pub docker_id : Str → Option Str
unfolding short_id text_after text_before
docker_id path = elim (text_after path (str "/docker/")) [
  | none ↦ none
  | some rest ↦ short_id (split_byte b'/' (text_before rest (str "/docker/"))).0
]

-- <prefix><container-id>.scope
unfoldable pub scope_id : Str → Str → Option Str
unfolding short_id text_after
scope_id prefix path = elim (text_after path prefix) [
  | none ↦ none
  | some rest ↦ elim (index rest (str ".")) [
    | none ↦ none
    | some i ↦ if ltb 0 i then short_id (take i rest) else none
  ]
]

-- isHexString
pub is_hex_string : Str → Bool
is_hex_string [] = true
is_hex_string (c ∷ s) =
    let rest = is_hex_string s in
    if not (leb b'0' c && leb c b'9')
      && (not (leb b'a' c && leb c b'f') && not (leb b'A' c && leb c b'F'))
    then false
    else rest

-- A part of a Kubernetes path that begins with a runtime's prefix.
unfoldable pub runtime_id : Str → Str → Option Str
unfolding short_id
runtime_id prefix part =
    if has_prefix part prefix
    then short_id (trim_suffix (trim_prefix part prefix) (str ".scope"))
    else none

-- The loop over the parts of a Kubernetes path.
unfoldable pub kube_id : List Str → Option Str
unfolding runtime_id is_hex_string
kube_id [] = none
kube_id (part ∷ more) = or_else (runtime_id (str "crio-") part) (
    or_else (runtime_id (str "cri-containerd-") part) (
      or_else (if nat_beq (length part) 64 && is_hex_string part then some (take 12 part) else none)
        (kube_id more)))

abbrev pub or_none : Option Str → Str
or_none none = []
or_none (some s) = s

-- ExtractContainerID
unfoldable pub extract_container_id : Str → Str
unfolding docker_id scope_id kube_id
extract_container_id path =
    if is_empty path
    then []
    else or_none (
        or_else (docker_id path) (
          or_else (scope_id (str "containerd-") path) (
            or_else
              (if contains path (str "/kubepods")
                then kube_id (parts (split_byte b'/' path))
                else none)
              (scope_id (str "libpod-") path))))

-- getParentPID, on the lines of /proc/<pid>/status: `none` for its errors.
pub parent_pid : List Str → Option ℤ
parent_pid [] = none
parent_pid (line ∷ more) =
    let rest = parent_pid more in
    if has_prefix line (str "PPid:")
    then (elim (words line) [ [] ↦ rest | w ∷ ws ↦ elim ws [ [] ↦ rest | v ∷ vs ↦ parse_int v ] ])
    else rest

abbrev pub read_parent : Option (List Str) → Option ℤ
read_parent none = none
read_parent (some lines) = parent_pid lines

-- The loop of GetProcessChain, with the rounds that are left. `status` gives the lines of a process's
-- file, or `none` if it cannot be read.
unfoldable pub chain_from : (ℤ → Option (List Str)) → ℕ → ℤ → List ℤ
unfolding parent_pid
chain_from status zero pid = []
chain_from status (suc k) pid =
    if not (ltb_ℤ (pos 0) pid)
    then []
    else if pid == pos 1
    then pid ∷ []
    else pid ∷ elim (read_parent (status pid)) [
      | none ↦ []
      | some parent ↦ if leb_ℤ parent (pos 0) then [] else chain_from status k parent
    ]

-- GetProcessChain
unfoldable pub get_process_chain : (ℤ → Option (List Str)) → ℤ → List ℤ
unfolding chain_from
get_process_chain status pid = chain_from status 10 pid
