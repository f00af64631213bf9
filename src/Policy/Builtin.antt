-- ===== src/Policy/Builtin.antt =====
-- pkg/policy/loader.go: the built-in policy.
use neurosentry.Common.{[], false, int_eq, nat_eq, pos, str, str_eq, true, ◌∷◌}
use neurosentry.Policy.{Policy, Rule, RuleCondition, action_allow, action_block}

abbrev pub no_condition : RuleCondition
no_condition = record {
  type = [];
  extensions = [];
  paths = [];
  destinations = [];
  size_threshold_mb = pos 0;
  port = pos 0;
  protocol = [];
  hash_mismatch = false;
  cidr_match = [];
}

abbrev pub block_models : Rule
block_models = record {
  name = str "block-unauthorized-model-access";
  description = str "Block unauthorized access to model files";
  enabled = true;
  condition = record no_condition {
    type = str "file_access";
    extensions = str ".safetensors" ∷ str ".gguf" ∷ str ".pth" ∷ str ".pt" ∷ str ".pkl" ∷ [];
  };
  action = action_block;
  severity = str "high";
  alert = true;
  response = [];
}

abbrev pub block_pickles : Rule
block_pickles = record {
  name = str "block-pickle-bombs";
  description = str "Block dangerous pickle operations";
  enabled = true;
  condition = record no_condition { type = str "pickle_dangerous" };
  action = action_block;
  severity = str "critical";
  alert = true;
  response = [];
}

abbrev pub allow_internal : Rule
allow_internal = record {
  name = str "allow-k8s-internal";
  description = str "Allow internal Kubernetes traffic";
  enabled = true;
  condition = record no_condition {
    type = str "network_egress";
    destinations = str "10.0.0.0/8" ∷ str "172.16.0.0/12" ∷ [];
  };
  action = action_allow;
  severity = str "info";
  alert = false;
  response = [];
}

-- DefaultPolicy
unfoldable pub default_policy : Policy
default_policy = record {
  version = str "1.0";
  metadata = record {
    name = str "neurosentry-default";
    description = str "Default security policy for AI inference protection";
    severity = str "medium";
  };
  rules = block_models ∷ block_pickles ∷ allow_internal ∷ [];
  responses = [];
  alerts = record {
    webhook = [];
    silence_seconds = pos 300;
    rate_limit = pos 10;
    rate_limit_window = str "1m";
  };
  trusted = record { processes = []; containers = [] };
  exemptions = record { paths = []; users = [] };
}
