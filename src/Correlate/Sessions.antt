-- ===== src/Correlate/Sessions.antt =====
-- pkg/correlate/correlate.go: the sessions of the processes, their pruning and their eviction.
pub mod Bounds
use neurosentry.Common.{
  Duration, List, Map, Option, Str, Time, [], before, delete, fire_key, get, has, if◌then◌else◌,
  int_eq, last_n, leb, length, map, nat_beq, nat_eq, neg, none, put, some, str_eq, take, ℕ, ℤ, ◌++◌,
  ◌+ℤ◌, ◌/◌, ◌∷◌,
}
use neurosentry.Correlate.{Signal}
use neurosentry.Correlate.Engine.{Correlator, PidSession, session_signal_cap}

-- The aged entries of evictLocked, oldest first. `sort.Slice` may put equally old ones in any order; so
-- may the order of the map, which the list stands for.
abbrev pub Aged : Type 0
Aged = ℤ × Time

pub insert_aged : Aged → List Aged → List Aged
insert_aged a [] = a ∷ []
insert_aged a (b ∷ bs) = if before b.1 a.1 then b ∷ insert_aged a bs else a ∷ b ∷ bs

pub sort_aged : List Aged → List Aged
unfolding insert_aged
sort_aged [] = []
sort_aged (a ∷ as_) = insert_aged a (sort_aged as_)

abbrev pub age : ℤ × PidSession → Aged
age (pid, sess) = (pid, sess.last_active)

-- `delete(c.lastFired, fireKeyPrefix(pid))`
unfoldable pub forget_fired : Map Str Time → ℤ → Map Str Time
forget_fired m pid = delete m (fire_key pid [])

-- The two maps that eviction changes.
abbrev pub Tracked : Type 0
Tracked = Map ℤ PidSession × Map Str Time

-- The loop of evictLocked over the sessions to drop.
unfoldable pub drop_sessions : Tracked → List Aged → Tracked
unfolding forget_fired
drop_sessions t [] = t
drop_sessions (sessions, last_fired) ((pid, last) ∷ as_) =
    drop_sessions (delete sessions pid, forget_fired last_fired pid) as_

-- A quarter, and at least one.
abbrev pub drop_count : ℕ → ℕ
drop_count n = if nat_beq (n / 4) 0 then 1 else n / 4

-- evictLocked
unfoldable pub evict : Tracked → Tracked
unfolding sort_aged drop_sessions
evict t = drop_sessions t (take (drop_count (length t.0)) (sort_aged (map age t.0)))

-- Reap
unfoldable pub reap : Correlator → ℤ → Correlator
unfolding forget_fired
reap c pid = record c {
  sessions = delete c.sessions pid;
  last_fired = forget_fired c.last_fired pid;
}

-- The loop of pruneLocked: the leading signals that are older than the cutoff go.
pub skip_old : Time → List Signal → List Signal
skip_old cutoff [] = []
skip_old cutoff (s ∷ ss) =
    let rest = skip_old cutoff ss in if before s.timestamp cutoff then rest else s ∷ ss

-- pruneLocked
pub prune : Duration → Time → List Signal → List Signal
unfolding skip_old
prune max_window now ss = last_n session_signal_cap (skip_old (now +ℤ neg max_window) ss)

-- The session of the signal's process, with the signal.
abbrev pub session_signals : Option PidSession → List Signal
session_signals none = []
session_signals (some sess) = sess.signals

-- `if sess == nil { if len(c.sessions) >= c.maxSessions { c.evictLocked() } ... }`
unfoldable pub make_room : ℕ → ℤ → Tracked → Tracked
unfolding evict
make_room max_sessions pid t =
    if has t.0 pid then t else if leb max_sessions (length t.0) then evict t else t

-- The session of the signal's process once it has the signal.
pub extended : Correlator → Signal → PidSession
unfolding prune
extended c s = record {
  signals = prune c.max_window s.timestamp (session_signals (get c.sessions s.pid) ++ s ∷ []);
  last_active = s.timestamp;
}

-- Ingest, up to the rules: the raw ring and the session.
unfoldable pub record_signal : Correlator → Signal → Correlator
unfolding make_room extended
record_signal c s =
    let t = make_room c.max_sessions s.pid (c.sessions, c.last_fired) in
    record c {
      recent_signals = last_n c.max_recent_signals (c.recent_signals ++ s ∷ []);
      sessions = put t.0 s.pid (extended c s);
      last_fired = t.1;
    }
