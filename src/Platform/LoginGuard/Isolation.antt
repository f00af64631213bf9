-- ===== src/Platform/LoginGuard/Isolation.antt =====
-- pkg/platform/loginguard.go: what each call leaves alone, and what a success clears.
use neurosentry.Common.{
  Bool, Option, Str, Time, ap, arith, before, eq_iff, eq_refl, get, get-delete, get-put,
  if◌then◌else◌, int_eq, is_zero, nat_eq, none, not, pos, some, str_eq, sym, true, ◌∙◌, ◌≡◌, ◌≢◌,
}
use neurosentry.Platform.LoginGuard.{
  AttemptRecord, LoginGuard, allowed, locked_until_of, record_failure, record_success,
}

-- The calls that change a guard, and the identity that each is about.
pub data Call : Type 0 where
  asks fails : Time → Str → Call
  succeeds : Str → Call

abbrev pub subject : Call → Str
subject (asks now key) = key
subject (fails now key) = key
subject (succeeds key) = key

pub step : LoginGuard → Call → LoginGuard
step g (asks now key) = (allowed g now key).0
step g (fails now key) = record_failure g now key
step g (succeeds key) = record_success g key

-- What Allowed answers, as a function of the key's record.
abbrev pub admits : Time → Option AttemptRecord → Bool
admits now none = true
admits now (some rec) = if is_zero rec.locked_until then true else not (before now rec.locked_until)

pub allowed-admits :
    (g : LoginGuard) (now : Time) (key : Str)
    → (allowed g now key).1 ≡ admits now (get g.records key)
unfolding allowed
allowed-admits g now key = ground arith

get-step :
    (g : LoginGuard) (c : Call) (other : Str)
    → subject c ≢ other
    → get (step g c).records other ≡ get g.records other
unfolding step allowed record_failure record_success
get-step g (asks now key) other ne =
    ground (arith, get-delete g.records key other, eq_iff key other, ne)
get-step g (fails now key) other ne = rw get-put (ground (arith, eq_iff key other, ne))
get-step g (succeeds key) other ne = rw get-delete (ground (arith, eq_iff key other, ne))

-- A call about one identity changes nothing for another: its record is as before, and so is the
-- answer to its next attempt.
pub step_other :
    (g : LoginGuard) (c : Call) (later : Time) (other : Str)
    → subject c ≢ other
    → (get (step g c).records other ≡ get g.records other)
      × ((allowed (step g c) later other).1 ≡ (allowed g later other).1)
step_other g c later other ne = (
  get-step g c other ne,
  allowed-admits (step g c) later other
      ∙ ap (admits later) (get-step g c other ne)
      ∙ sym (allowed-admits g later other),
)

-- After a successful login the identity is admitted at any time, and no lock is reported.
pub success_clears :
    (g : LoginGuard) (now : Time) (key : Str)
    → ((allowed (record_success g key) now key).1 ≡ true)
      × (locked_until_of (record_success g key) key ≡ pos 0)
unfolding allowed record_success locked_until_of
success_clears g now key = ground (arith, get-delete g.records key key, eq_refl key)
