-- ===== src/Correlate/Builtin/Examples.antt =====
-- Concrete runs of the built-in rules of pkg/correlate/rules.go.
use neurosentry.Common.{
  [], any, arith, contains, false, get, has_prefix, if◌then◌else◌, index, int_eq, is_empty, nat_beq,
  nat_eq, none, pos, refl, second, some, str, str_beq, str_eq, to_lower, true, ◌*◌, ◌+ℤ◌, ◌==◌, ◌↔◌,
  ◌∷◌, ◌≡◌, ◌⊎◌,
}
use neurosentry.Correlate.{Signal, attr}
use neurosentry.Correlate.Rules.{assign, evaluate, in_order, matches, pick, windowed}
use neurosentry.Correlate.Predicates.{
  Addresses, Ip4, dst_is_external, is_llm_bound, is_local, layer_kernel_file, layer_kernel_net,
  path_is_secret,
}
use neurosentry.Correlate.Builtin.{secret_read_then_llm}
use neurosentry.Correlate.Builtin.Ranges.{dst_is_external_iff, in_prefix, ip4, private_prefixes}
use neurosentry.Correlate.Builtin.Exfiltration.{IsExfiltration, evaluate-IsExfiltration}

abbrev resolver : Ip4
resolver = ip4 8 8 8 8

-- A package net that knows one address.
abbrev one_net : Addresses
one_net = record {
  Ip = Ip4;
  parse_ip = λ s. if s == str "8.8.8.8" then some resolver else none;
  is_loopback = λ a. nat_beq a.b0 127;
  is_link_local_unicast = λ a. false;
  is_link_local_multicast = λ a. false;
  is_global_unicast = λ a. true;
  to4 = λ a. some a;
}

abbrev connection : Signal
connection = record {
  timestamp = pos (12 * second);
  pid = pos 7;
  tenant_id = [];
  layer = layer_kernel_net;
  kind = str "net_connect";
  attributes = some ((str "dst", str "8.8.8.8") ∷ (str "ai_provider", str "openai") ∷ []);
  severity = [];
}

abbrev secret_read : Signal
secret_read = record connection {
  timestamp = pos (9 * second);
  layer = layer_kernel_file;
  kind = str "file_read";
  attributes = some ((str "path", str "/root/.ssh/id_rsa") ∷ []);
}

dst_run : is_empty (attr connection (str "dst")) ≡ false
unfolding attr get str_beq
dst_run = refl

parse_run : one_net.parse_ip (attr connection (str "dst")) ≡ some resolver
unfolding attr get str_beq
parse_run = refl

dst_is_external_iff_example : (dst_is_external one_net connection ≡ true) ↔ (
    (attr connection (str "external") ≡ str "true")
    ⊎ ((is_local one_net resolver ≡ false) × (any (in_prefix resolver) private_prefixes ≡ false)))
dst_is_external_iff_example =
    dst_is_external_iff one_net connection resolver resolver dst_run parse_run refl (record {
      small0 = omega arith;
      small1 = omega arith;
      small2 = omega arith;
      small3 = omega arith;
    })

exfiltration_run :
    evaluate secret_read_then_llm (secret_read ∷ connection ∷ []) (pos (12 * second))
    ≡ some (secret_read ∷ connection ∷ [])
unfolding evaluate windowed assign pick matches in_order path_is_secret is_llm_bound attr get
    str_beq to_lower contains index has_prefix ◌+ℤ◌
exfiltration_run = refl

evaluate-IsExfiltration_example :
    IsExfiltration
      (secret_read ∷ connection ∷ [])
      (pos (12 * second))
      (secret_read ∷ connection ∷ [])
evaluate-IsExfiltration_example =
    evaluate-IsExfiltration (secret_read ∷ connection ∷ []) (pos (12 * second))
      (secret_read ∷ connection ∷ []) exfiltration_run
