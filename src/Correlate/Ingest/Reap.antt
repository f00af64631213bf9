-- ===== src/Correlate/Ingest/Reap.antt =====
-- pkg/correlate/correlate.go: what Reap forgets of a process, and what it does not.
use neurosentry.Common.{
  Map, Str, Time, [], arith, eq_iff, fire_key, fire_key_name, get, get-delete, if◌then◌else◌,
  int_eq, nat_eq, none, str_eq, ℤ, ◌==◌, ◌≡◌, ◌≢◌,
}
use neurosentry.Correlate.Engine.{Correlator}
use neurosentry.Correlate.Sessions.{forget_fired, reap}

-- Reap drops the session of the process, and no other session.
pub get-reap :
    (c : Correlator) (pid other : ℤ)
    → get (reap c pid).sessions other ≡ (if pid == other then none else get c.sessions other)
unfolding reap
get-reap c pid other = get-delete c.sessions pid other

-- The key that Reap and eviction delete is of another shape than a named rule's.
pub forget_fired-other :
    (m : Map Str Time) (pid other : ℤ) (rule : Str)
    → rule ≢ []
    → get (forget_fired m pid) (fire_key other rule) ≡ get m (fire_key other rule)
unfolding forget_fired
forget_fired-other m pid other rule named = rw get-delete (
    ground (
      arith,
      eq_iff (fire_key pid []) (fire_key other rule),
      fire_key_name pid other [] rule,
      named,
    ))

-- Reap clears no cooldown of a rule that has a name: the key that it deletes is of another shape.
pub reap_keeps_cooldowns :
    (c : Correlator) (pid other : ℤ) (rule : Str)
    → rule ≢ []
    → get (reap c pid).last_fired (fire_key other rule) ≡ get c.last_fired (fire_key other rule)
unfolding reap
reap_keeps_cooldowns c pid other rule named = forget_fired-other c.last_fired pid other rule named
