-- ===== src/Fleet/Canary.antt =====
-- pkg/fleet/registry.go: which agents a staged rollout reaches, and the versions that it assigns.
use neurosentry.Common.{
  Str, arith, int_eq, is_some, ltb_ℤ, nat_eq, pos, refl, some, str_eq, ℤ, ◌&&◌, ◌<ℤ◌, ◌<◌, ◌≡◌,
}
use neurosentry.Fleet.{
  DesiredState, Registry, Rollout, abort_rollout, bucket, desired_for_agent, promote,
  promote_rollout, set_desired, start_rollout,
}

bucket-lt : (id : Str) → bucket id < 100
unfolding bucket
bucket-lt id = omega arith

-- An agent that a rollout reaches is served the rollout's state after every promotion too, whatever the
-- percentage asked for; and a promotion to 100 or more, or to no more than before, ends the rollout.
pub promote_rollout_lem :
    (r : Registry) (p : Rollout) (id : Str) (percent : ℤ)
    → r.pending ≡ some p
    → pos (bucket id) <ℤ p.percent
    → (desired_for_agent (promote_rollout r percent).0 id ≡ p.desired)
      × (is_some (promote_rollout r percent).0.pending
          ≡ (ltb_ℤ p.percent percent && ltb_ℤ percent (pos 100)))
unfolding promote_rollout promote desired_for_agent
promote_rollout_lem r p id percent e h =
    (rw (e, promote_rollout) (ground arith), rw (e, promote_rollout) (ground arith))

-- The state that is set after a rollout was started and aborted bears the version of the rollout's state.
pub aborted_version :
    (r : Registry) (canary next : DesiredState) (percent : ℤ)
    → let started = start_rollout r canary percent in
      (set_desired (abort_rollout started.0).0 next).1.version ≡ started.1.desired.version
unfolding start_rollout abort_rollout set_desired
aborted_version r canary next percent = refl
