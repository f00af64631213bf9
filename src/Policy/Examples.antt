-- ===== src/Policy/Examples.antt =====
-- Concrete runs of pkg/policy, with a stand-in for package net that knows the addresses of 10.0.0.0/8.
use neurosentry.Common.{
  List, Option, Str, [], contains, get, has_prefix, if◌then◌else◌, index, int_eq, length, nat_eq,
  none, pos, refl, some, split_byte, str, str_beq, str_eq, ℤ, ◌↔◌, ◌∷◌, ◌≡◌, ◌≤◌,
}
use neurosentry.Policy.{
  Net, action_block, decide, evaluate, match_file_access, match_file_fields, matches, validate,
}
use neurosentry.Policy.Events.{Event, fields, text, text_at, text_or_data}
use neurosentry.Policy.Builtin.{default_policy}
use neurosentry.Policy.Decisions.{Chooses, IsValid, evaluate_iff, validate_iff}
use neurosentry.Policy.Advanced.{
  docker_id, extract_container_id, get_process_chain, short_id, text_after, text_before,
}
use neurosentry.Policy.Ancestry.{IsLineage, get_process_chain-IsLineage}

abbrev ten_net : Net
ten_net = record {
  Ip = Str;
  Network = Str;
  parse_ip = λ s. some s;
  parse_cidr = λ s. if contains s (str "/") then some s else none;
  has_ip = λ n ip. has_prefix ip (str "10.");
}

abbrev model_read : Event
model_read =
    fields ((str "type", text (str "file_access")) ∷ (str "extension", text (str ".gguf")) ∷ [])

evaluate_run : evaluate ten_net default_policy model_read ≡ action_block
unfolding evaluate decide matches match_file_access match_file_fields default_policy text_at
    text_or_data get str_beq
evaluate_run = refl

validate_iff_example : (validate default_policy ≡ none) ↔ IsValid default_policy
validate_iff_example = validate_iff default_policy

evaluate_iff_example :
    (evaluate ten_net default_policy model_read ≡ action_block)
    ↔ Chooses ten_net default_policy.rules model_read action_block
evaluate_iff_example = evaluate_iff ten_net default_policy model_read action_block

abbrev docker_path : Str
docker_path = str "/docker/0123456789abcdef"

extract_run : extract_container_id docker_path ≡ str "0123456789ab"
unfolding extract_container_id docker_id short_id text_after text_before index has_prefix split_byte
extract_run = refl

-- Every process names process 9 as its parent, 9 itself too.
abbrev circle : ℤ → Option (List Str)
circle pid = some (str "Name: x" ∷ str "PPid: 9" ∷ [])

get_process_chain-IsLineage_example :
    (length (get_process_chain circle (pos 9)) ≤ 10)
    × IsLineage circle (get_process_chain circle (pos 9))
get_process_chain-IsLineage_example = get_process_chain-IsLineage circle (pos 9)
