-- ===== src/Platform/LoginGuard.antt =====
-- pkg/platform/loginguard.go: the brute-force guard. A method that reads the clock takes its value; one
-- that changes the guard returns it. The record of a key is held by pointer in the map only, so a change
-- through the pointer is a `put`.
pub mod Lockout
pub mod Isolation
use neurosentry.Common.{
  Bool, Duration, Map, Option, Str, Time, [], before, delete, false, get, if◌then◌else◌, inc64,
  int_eq, is_zero, leb_ℤ, ltb_ℤ, nat_eq, none, pos, put, second, some, str_eq, sub, true, ℤ, ◌*◌,
  ◌+ℤ◌,
}

pub record AttemptRecord : Type 0 where
  pub failures : ℤ
  pub window_start : Time
  pub locked_until : Time

pub record LoginGuard : Type 0 where
  pub records : Map Str AttemptRecord
  pub max_failures : ℤ
  pub window : Duration
  pub lockout : Duration

abbrev pub quarter_hour : Duration
quarter_hour = pos (15 * 60 * second)

-- NewLoginGuard
new : ℤ → Duration → Duration → LoginGuard
new max_failures window lockout = record {
  records = [];
  max_failures = if leb_ℤ max_failures (pos 0) then pos 5 else max_failures;
  window = if leb_ℤ window (pos 0) then quarter_hour else window;
  lockout = if leb_ℤ lockout (pos 0) then quarter_hour else lockout;
}

-- The part of Allowed that has found a record.
unfoldable pub allowed_by : LoginGuard → Time → Str → AttemptRecord → LoginGuard × Bool
allowed_by g now key rec =
    if is_zero rec.locked_until
    then (g, true)
    else if before now rec.locked_until
    then (g, false)
    else (record g { records = delete g.records key }, true)

-- Allowed
unfoldable pub allowed : LoginGuard → Time → Str → LoginGuard × Bool
unfolding allowed_by
allowed g now key = elim (get g.records key) [
  | none ↦ (g, true)
  | some rec ↦ allowed_by g now key rec
]

abbrev pub opened : Time → AttemptRecord
opened now = record { failures = pos 0; window_start = now; locked_until = pos 0 }

-- The record that a failure counts in: the key's own, or a new one when there is none or its window is over.
current : LoginGuard → Time → Option AttemptRecord → AttemptRecord
current g now none = opened now
current g now (some rec) = if ltb_ℤ g.window (sub now rec.window_start) then opened now else rec

count_failure : LoginGuard → Time → AttemptRecord → AttemptRecord
count_failure g now rec =
    let failures = inc64 rec.failures in
    if leb_ℤ g.max_failures failures
    then record rec { failures = failures; locked_until = now +ℤ g.lockout }
    else record rec { failures = failures }

-- RecordFailure
pub record_failure : LoginGuard → Time → Str → LoginGuard
unfolding current count_failure
record_failure g now key = record g {
  records = put g.records key (count_failure g now (current g now (get g.records key)));
}

-- RecordSuccess
pub record_success : LoginGuard → Str → LoginGuard
record_success g key = record g { records = delete g.records key }

-- LockedUntil
pub locked_until_of : LoginGuard → Str → Time
locked_until_of g key = elim (get g.records key) [ none ↦ pos 0 | some rec ↦ rec.locked_until ]
