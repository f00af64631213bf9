-- ===== src/Correlate/Authoring/Examples.antt =====
-- Concrete rules and suppressions that operators add. The stand-in for regular expressions matches a
-- text equal to the pattern; the empty pattern does not compile.
use neurosentry.Common.{
  Bool, Duration, List, Option, Str, [], false, get, if◌then◌else◌, int_eq, is_empty, is_some,
  nat_eq, none, pos, refl, second, some, str, str_beq, str_eq, true, ℕ, ◌*◌, ◌++◌, ◌∷◌, ◌≡◌,
}
use neurosentry.Correlate.{Finding, attr}
use neurosentry.Correlate.Engine.{SuppressionSpec, new_correlator, suppressed, suppresses}
use neurosentry.Correlate.Authoring.{RuleSpec, add_suppression, remove_suppression}
use neurosentry.Correlate.Authoring.Registry.{Registered}
use neurosentry.Correlate.Authoring.Runs.{
  Call, adds, enables, removes, run, run-Registered, updates,
}
use neurosentry.Correlate.Authoring.Silence.{add_suppression_lem}

abbrev literal : Str → Option (Str → Bool)
literal pattern = if is_empty pattern then none else some (λ s. str_beq s pattern)

abbrev whole_seconds : ℕ → Duration
whole_seconds n = pos (n * second)

abbrev exec_spec : Str → RuleSpec ℕ
exec_spec id = record {
  id = id;
  name = str "shell";
  category = [];
  severity = [];
  technique = [];
  mitre_attack = [];
  description = [];
  window_secs = 90;
  ordered = false;
  matchers =
      record { layer = []; kind = str "exec"; attr_key = str "comm"; attr_pattern = str "sh" } ∷ [];
  rationale = [];
  remediation = [];
  false_positives = [];
  references = [];
}

abbrev authoring : List (Call literal ℕ whole_seconds)
authoring =
    adds (str "01") (exec_spec [])
    ∷ adds (str "02") (exec_spec (str "MY-1"))
    ∷ updates (str "03") (exec_spec (str "MY-1"))
    ∷ enables (str "MY-1") false
    ∷ removes (str "MY-1")
    ∷ []

run-Registered_example : Registered (run literal ℕ whole_seconds (new_correlator []) authoring)
run-Registered_example = run-Registered literal ℕ whole_seconds [] authoring tt

abbrev backup : SuppressionSpec
backup = record {
  id = [];
  rule_id = [];
  attr_key = str "dst";
  attr_pattern = str "backup";
  reason = str "nightly";
}

abbrev to_backup : Finding
to_backup = record {
  timestamp = pos 0;
  rule_id = str "NS-1";
  rule = str "exfiltration";
  pid = pos 7;
  tenant_id = [];
  severity = str "critical";
  technique = [];
  description = [];
  chain =
      record {
        timestamp = pos 0;
        pid = pos 7;
        tenant_id = [];
        layer = str "net";
        kind = str "connect";
        attributes = some ((str "dst", str "backup") ∷ []);
        severity = [];
      }
      ∷ [];
}

add_suppression_lem_example :
    (is_some (
        suppressed
          (add_suppression literal (new_correlator []) (str "0a") backup).0.suppressions
          to_backup)
      ≡ true)
    × (remove_suppression
          (add_suppression literal (new_correlator []) (str "0a") backup).0
          (str "NS-SUP-" ++ str "0a")
        ≡ (new_correlator [], true))
unfolding add_suppression new_correlator get suppresses str_beq attr
add_suppression_lem_example =
    add_suppression_lem literal (new_correlator []) (str "0a") backup (str "NS-SUP-" ++ str "0a")
      (λ s. str_beq s (str "backup")) to_backup refl refl refl
