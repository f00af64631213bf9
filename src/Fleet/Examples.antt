-- ===== src/Fleet/Examples.antt =====
-- A concrete rollout of pkg/fleet/registry.go.
use neurosentry.Common.{
  [], arith, int_eq, is_some, ltb_ℤ, nat_eq, pos, refl, some, str, str_eq, true, xor_bits, ◌&&◌,
  ◌≡◌,
}
use neurosentry.Fleet.{
  DesiredState, Registry, Rollout, bucket, desired_for_agent, fnv1a, new_registry, promote_rollout,
}
use neurosentry.Fleet.Canary.{promote_rollout_lem}

abbrev learning : DesiredState
learning = record { version = pos 1; learning_mode = some true; min_severity = [] }

abbrev rollout : Rollout
rollout = record { desired = learning; percent = pos 100 }

abbrev rolling : Registry
rolling = record (new_registry (pos 0)) { pending = some rollout }

promote_rollout_lem_example :
    (desired_for_agent (promote_rollout rolling (pos 50)).0 (str "agt-1") ≡ learning)
    × (is_some (promote_rollout rolling (pos 50)).0.pending
        ≡ (ltb_ℤ (pos 100) (pos 50) && ltb_ℤ (pos 50) (pos 100)))
unfolding bucket fnv1a xor_bits
promote_rollout_lem_example =
    promote_rollout_lem rolling rollout (str "agt-1") (pos 50) refl (omega arith)
