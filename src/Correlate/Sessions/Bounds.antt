-- ===== src/Correlate/Sessions/Bounds.antt =====
-- pkg/correlate/correlate.go: the ceilings on what the engine keeps.
use neurosentry.Common.{
  All, Duration, List, Map, Time, [], ap, arith, before, delete, entries-has, get, get-delete,
  get-put, has, if_cases, int_eq, leb, leb→le, length, length-delete-le, length-delete-lt,
  length-last_n, length-put, map, nat_eq, neg, put, refl, some, str_eq, suc, take, true, zero, ℕ, ℤ,
  ◌++◌, ◌+ℤ◌, ◌<◌, ◌∷◌, ◌≡◌, ◌≤◌,
}
use neurosentry.Correlate.{Signal}
use neurosentry.Correlate.Engine.{Correlator, PidSession, session_signal_cap}
use neurosentry.Correlate.Sessions.{
  Aged, Tracked, age, drop_count, drop_sessions, evict, extended, forget_fired, insert_aged,
  make_room, prune, record_signal, skip_old, sort_aged,
}

-- The fail-safe ceilings.
pub record IsBounded (c : Correlator) : Type 0 where
  pub findings : length c.recent ≤ c.max_recent
  pub signals : length c.recent_signals ≤ c.max_recent_signals
  pub tracked : length c.sessions ≤ c.max_sessions
  pub histories :
      (pid : ℤ) (sess : PidSession)
      → get c.sessions pid ≡ some sess
      → length sess.signals ≤ session_signal_cap

-- Each ceiling of the sessions: how many there are, and how long each history is.
abbrev pub Capped : Map ℤ PidSession → Type 0
Capped m =
    (pid : ℤ) (sess : PidSession) → get m pid ≡ some sess → length sess.signals ≤ session_signal_cap

pub delete-Capped : (m : Map ℤ PidSession) (pid : ℤ) → Capped m → Capped (delete m pid)
delete-Capped m pid h other sess e = h other sess (ground (arith, get-delete m pid other))

drop_sessions-Capped : (t : Tracked) (as_ : List Aged) → Capped t.0 → Capped (drop_sessions t as_).0
unfolding drop_sessions
drop_sessions-Capped t [] h = h
drop_sessions-Capped (sessions, last_fired) ((pid, last) ∷ as_) h =
    drop_sessions-Capped (delete sessions pid, forget_fired last_fired pid) as_
      (delete-Capped sessions pid h)

length-prune-le :
    (w : Duration) (now : Time) (ss : List Signal) → length (prune w now ss) ≤ session_signal_cap
unfolding prune
length-prune-le w now ss =
    omega (arith, length-last_n session_signal_cap (skip_old (now +ℤ neg w) ss))

length-insert_aged : (a : Aged) (as_ : List Aged) → length (insert_aged a as_) ≡ suc (length as_)
unfolding insert_aged
length-insert_aged a [] = refl
length-insert_aged a (b ∷ bs) = ground (arith, length-insert_aged a bs)

length-sort_aged : (as_ : List Aged) → length (sort_aged as_) ≡ length as_
unfolding sort_aged
length-sort_aged [] = refl
length-sort_aged (a ∷ as_) =
    omega (arith, length-insert_aged a (sort_aged as_), length-sort_aged as_)

module _ (P : Aged → Type 0) where
  All-insert_aged : (a : Aged) (as_ : List Aged) → P a → All P as_ → All P (insert_aged a as_)
  unfolding insert_aged
  All-insert_aged a [] h k = (h, k)
  All-insert_aged a (b ∷ bs) h k =
      if_cases (All P) (before b.1 a.1) _ _ (λ _. (k.0, All-insert_aged a bs h k.1)) (λ _. (h, k))

  All-sort_aged : (as_ : List Aged) → All P as_ → All P (sort_aged as_)
  unfolding sort_aged
  All-sort_aged [] h = h
  All-sort_aged (a ∷ as_) h = All-insert_aged a (sort_aged as_) h.0 (All-sort_aged as_ h.1)

length-drop_sessions-le :
    (t : Tracked) (as_ : List Aged) → length (drop_sessions t as_).0 ≤ length t.0
unfolding drop_sessions
length-drop_sessions-le t [] = omega arith
length-drop_sessions-le (sessions, last_fired) ((pid, last) ∷ as_) = omega (
  arith,
  length-drop_sessions-le (delete sessions pid, forget_fired last_fired pid) as_,
  length-delete-le sessions pid,
)

drop_sessions-lt :
    (t : Tracked) (n : ℕ) (as_ : List Aged)
    → 0 < n
    → 0 < length as_
    → All (λ a. has t.0 a.0 ≡ true) as_
    → length (drop_sessions t (take n as_)).0 < length t.0
unfolding drop_sessions
drop_sessions-lt t zero as_ h k a = absurd (omega arith)
drop_sessions-lt t (suc n) [] h k a = absurd (omega arith)
drop_sessions-lt (sessions, last_fired) (suc n) ((pid, last) ∷ as_) h k a = omega (
  arith,
  length-drop_sessions-le (delete sessions pid, forget_fired last_fired pid) (take n as_),
  length-delete-lt sessions pid a.0,
)

ages-tracked :
    (m ms : Map ℤ PidSession)
    → All (λ x. has m x.0 ≡ true) ms
    → All (λ a. has m a.0 ≡ true) (map age ms)
ages-tracked m [] h = tt
ages-tracked m ((pid, sess) ∷ ms) h = (h.0, ages-tracked m ms h.1)

length-map : (ms : Map ℤ PidSession) → length (map age ms) ≡ length ms
length-map [] = refl
length-map (x ∷ ms) = ap suc (length-map ms)

-- Eviction makes room: at least one session goes.
evict-lt : (t : Tracked) → 0 < length t.0 → length (evict t).0 < length t.0
unfolding evict
evict-lt t h =
    drop_sessions-lt t (drop_count (length t.0)) (sort_aged (map age t.0)) (ground arith)
      (omega (arith, length-sort_aged (map age t.0), length-map t.0))
      (All-sort_aged _ (map age t.0) (ages-tracked t.0 t.0 (entries-has t.0)))

evict-Capped : (t : Tracked) → Capped t.0 → Capped (evict t).0
unfolding evict
evict-Capped t h =
    drop_sessions-Capped t (take (drop_count (length t.0)) (sort_aged (map age t.0))) h

make_room-Capped : (n : ℕ) (pid : ℤ) (t : Tracked) → Capped t.0 → Capped (make_room n pid t).0
unfolding make_room
make_room-Capped n pid t h =
    if_cases (λ (r : Tracked). Capped r.0) (has t.0 pid) _ _ (λ _. h)
      λ _.
        if_cases (λ (r : Tracked). Capped r.0) (leb n (length t.0)) _ _ (λ _. evict-Capped t h)
          (λ _. h)

-- The map has room for the process's session: its key is there, or the table is not full.
room_made :
    (n : ℕ) (pid : ℤ) (t : Tracked) (sess : PidSession)
    → 0 < n
    → length t.0 ≤ n
    → length (put (make_room n pid t).0 pid sess) ≤ n
unfolding make_room
room_made n pid t sess h le =
    if_cases (λ (r : Tracked). length (put r.0 pid sess) ≤ n) (has t.0 pid) _ _
      (λ old. ground (arith, length-put t.0 pid sess))
      λ new.
        if_cases (λ (r : Tracked). length (put r.0 pid sess) ≤ n) (leb n (length t.0)) _ _
          (λ full. ground (
            arith,
            length-put (evict t).0 pid sess,
            evict-lt t (omega (arith, leb→le n (length t.0) full)),
          ))
          (λ room. ground (arith, length-put t.0 pid sess))

put-Capped :
    (m : Map ℤ PidSession) (pid : ℤ) (sess : PidSession)
    → length sess.signals ≤ session_signal_cap
    → Capped m
    → Capped (put m pid sess)
put-Capped m pid sess le h other sess' e = ground (arith, get-put m pid other sess, h other sess')

-- Ingesting a signal keeps every ceiling, evicting sessions where the table is full.
pub record_signal-IsBounded :
    (c : Correlator) (s : Signal) → 0 < c.max_sessions → IsBounded c → IsBounded (record_signal c s)
unfolding record_signal extended
record_signal-IsBounded c s h b = record {
  findings = b.findings;
  signals = omega (arith, length-last_n c.max_recent_signals (c.recent_signals ++ s ∷ []));
  tracked = room_made c.max_sessions s.pid (c.sessions, c.last_fired) (extended c s) h b.tracked;
  histories =
      put-Capped _ s.pid (extended c s) (length-prune-le c.max_window s.timestamp _)
        (make_room-Capped c.max_sessions s.pid (c.sessions, c.last_fired) b.histories);
}
