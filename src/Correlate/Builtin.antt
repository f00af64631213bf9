-- ===== src/Correlate/Builtin.antt =====
-- pkg/correlate/rules.go: the built-in rules.
pub mod Ranges
pub mod Exfiltration
mod Examples
use neurosentry.Common.{
  Bool, List, Option, Str, [], false, int_eq, nat_eq, none, not, pos, second, some, str, str_eq,
  true, ℕ, ◌*◌, ◌++◌, ◌/◌, ◌∷◌,
}
use neurosentry.Correlate.{Matcher, Rule, Signal}
use neurosentry.Correlate.Predicates.{
  Addresses, comm_is_shell, dst_is_external, is_injection_flagged, is_kernel_side_effect,
  is_llm_bound, is_unsanctioned_ai, layer_kernel_file, layer_kernel_net, layer_kernel_proc,
  layer_mcp, layer_model, model_unverified, path_is_container_escape, path_is_model, path_is_secret,
}

-- The bytes of the dash in the descriptions.
abbrev pub em_dash : Str
em_dash = 226 ∷ 128 ∷ 148 ∷ []

abbrev pub matcher : Str → Str → Option (Signal → Bool) → Matcher
matcher layer kind pred = record { layer = layer; kind = kind; pred = pred }

-- A rule with the fields that the built-in ones set.
abbrev pub builtin :
    Str → Str → Str → List Matcher → ℕ → Bool → Str → Str → Str → List Str → Str → Rule
builtin id name category all window ordered severity technique attack references description =
    record {
      id = id;
      name = name;
      all = all;
      window = pos (window * second);
      ordered = ordered;
      severity = severity;
      technique = technique;
      mitre_attack = attack;
      category = category;
      references = references;
      description = description;
      rationale = [];
      remediation = [];
      false_positives = [];
      matchers = [];
    }

abbrev pub secret_read_then_llm : Rule
secret_read_then_llm =
    builtin (str "NS-CORR-001") (str "secret-read-then-llm") (str "Data Exfiltration")
      (matcher layer_kernel_file (str "file_read") (some path_is_secret)
        ∷ matcher [] [] (some is_llm_bound)
        ∷ [])
      10 true (str "critical") (str "LLM02") (str "T1041")
      (str "https://owasp.org/www-project-top-10-for-large-language-model-applications/" ∷ [])
      (str "a credential/secret file was read and then traffic went toward an LLM "
        ++ em_dash
        ++ str " likely secret exfiltration to an AI provider")

abbrev pub tool_triggered_exfil : Addresses → Rule
tool_triggered_exfil net =
    builtin (str "NS-CORR-002") (str "tool-triggered-exfil") (str "Data Exfiltration")
      (matcher layer_mcp (str "tool_call") none
        ∷ matcher layer_kernel_net (str "net_connect") (some (dst_is_external net))
        ∷ [])
      5 true (str "high") (str "LLM06") (str "T1567") []
      (str
          "an MCP tool call was immediately followed by an outbound connection to an external host "
        ++ em_dash
        ++ str " possible data exfiltration via a tool")

abbrev pub tool_spawned_process : Rule
tool_spawned_process =
    builtin (str "NS-CORR-003") (str "tool-spawned-process") (str "Excessive Agency")
      (matcher layer_mcp (str "tool_call") none ∷ matcher layer_kernel_proc (str "exec") none ∷ [])
      3 true (str "high") (str "LLM06") (str "T1059") []
      (str "an MCP tool call spawned a new process "
        ++ em_dash
        ++ str " excessive agency / possible command execution")

abbrev pub injection_then_action : Rule
injection_then_action =
    builtin (str "NS-CORR-004") (str "injection-then-action") (str "Prompt Injection")
      (matcher [] [] (some is_injection_flagged) ∷ matcher [] [] (some is_kernel_side_effect) ∷ [])
      8 true (str "critical") (str "LLM01") (str "T1059") []
      (str "a prompt-injection attempt was followed by a real system action "
        ++ em_dash
        ++ str " the injection may have succeeded")

abbrev pub unverified_model_load : Rule
unverified_model_load =
    builtin (str "NS-CORR-005") (str "unverified-model-load") (str "Supply Chain")
      (matcher layer_model (str "load") (some model_unverified) ∷ []) 1 false (str "medium")
      (str "LLM03") (str "T1195") []
      (str "a model was loaded without integrity verification "
        ++ em_dash
        ++ str " supply-chain risk")

abbrev pub pickle_deserialization_rce : Rule
pickle_deserialization_rce =
    builtin (str "NS-CORR-006") (str "pickle-deserialization-rce") (str "Supply Chain")
      (matcher layer_model (str "pickle_load") none
        ∷ matcher layer_kernel_proc (str "exec") none
        ∷ [])
      4 true (str "critical") (str "LLM03") (str "T1059") []
      (str "a pickle/model deserialization was followed by process execution "
        ++ em_dash
        ++ str " classic deserialization RCE")

abbrev pub model_theft_staging : Addresses → Rule
model_theft_staging net =
    builtin (str "NS-CORR-007") (str "model-theft-staging") (str "Model Theft")
      (matcher layer_kernel_file (str "file_read") (some path_is_model)
        ∷ matcher layer_kernel_net (str "net_connect") (some (dst_is_external net))
        ∷ [])
      15 true (str "high") (str "LLM10") (str "T1030") []
      (str "a protected model file was read and then large egress went to an external host "
        ++ em_dash
        ++ str " possible model weight exfiltration")

abbrev pub reverse_shell_indicator : Addresses → Rule
reverse_shell_indicator net =
    builtin (str "NS-CORR-008") (str "reverse-shell-indicator") (str "Command & Control")
      (matcher layer_kernel_proc (str "exec") (some comm_is_shell)
        ∷ matcher layer_kernel_net (str "net_connect") (some (dst_is_external net))
        ∷ [])
      3 false (str "critical") [] (str "T1059.004") []
      (str "a shell process opened an outbound connection to an external host "
        ++ em_dash
        ++ str " reverse-shell / C2 pattern")

abbrev pub container_escape_probe : Rule
container_escape_probe =
    builtin (str "NS-CORR-009") (str "container-escape-probe") (str "Privilege Escalation")
      (matcher layer_kernel_file [] (some path_is_container_escape) ∷ []) 1 false (str "high") []
      (str "T1611") []
      (str "access to a container-escape sensitive path (docker.sock, /proc/1/root, host mounts) "
        ++ em_dash
        ++ str " container breakout attempt")

abbrev pub shadow_ai_egress : Rule
shadow_ai_egress =
    builtin (str "NS-CORR-010") (str "shadow-ai-egress") (str "Shadow AI")
      (matcher layer_kernel_net (str "net_connect") (some is_unsanctioned_ai) ∷ []) 1 false
      (str "medium") (str "LLM02") (str "T1567") []
      (str "outbound traffic to an unsanctioned AI provider "
        ++ em_dash
        ++ str " shadow-AI usage that may leak data or bypass the gateway")

abbrev pub tool_then_secret_read : Rule
tool_then_secret_read =
    builtin (str "NS-CORR-011") (str "tool-then-secret-read") (str "Credential Access")
      (matcher layer_mcp (str "tool_call") none
        ∷ matcher layer_kernel_file (str "file_read") (some path_is_secret)
        ∷ [])
      5 true (str "high") (str "LLM06") (str "T1552") []
      (str "an MCP tool call was followed by a read of a credential/secret file "
        ++ em_dash
        ++ str " a tool reaching for secrets it should not touch")

-- BuiltinRules
builtin_rules : Addresses → List Rule
builtin_rules net =
    secret_read_then_llm
    ∷ tool_triggered_exfil net
    ∷ tool_spawned_process
    ∷ injection_then_action
    ∷ unverified_model_load
    ∷ pickle_deserialization_rce
    ∷ model_theft_staging net
    ∷ reverse_shell_indicator net
    ∷ container_escape_probe
    ∷ shadow_ai_egress
    ∷ tool_then_secret_read
    ∷ []
