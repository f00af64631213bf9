-- ===== src/Platform/Tenants/Examples.antt =====
-- A concrete run of pkg/platform/tenant.go.
use neurosentry.Common.{List, [], int_eq, nat_eq, pos, str, str_eq, ◌∷◌, ◌≡◌}
use neurosentry.Platform.Tenants.{Tenant, new}
use neurosentry.Platform.Tenants.Directory.{Call, creates, deletes, gets_slug, lists, replay, run}
use neurosentry.Platform.Tenants.Refinement.{run-replay}

abbrev acme : Tenant
acme = record {
  id = [];
  slug = str " Acme ";
  name = str "Acme";
  plan = [];
  status = [];
  created_at = pos 0;
}

-- The second creation has the slug of the first one.
abbrev calls : List Call
calls =
    creates (str "01") (pos 5) acme
    ∷ creates (str "02") (pos 6) acme
    ∷ gets_slug (str "ACME")
    ∷ deletes (str "ten_01")
    ∷ gets_slug (str "acme")
    ∷ lists
    ∷ []

run-replay_example : (run new calls).1 ≡ (replay [] calls).1
run-replay_example = run-replay calls
