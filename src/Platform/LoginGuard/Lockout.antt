-- ===== src/Platform/LoginGuard/Lockout.antt =====
-- pkg/platform/loginguard.go: when repeated failures lock an identity out, and for how long.
use neurosentry.Common.{
  All, Bool, List, Map, Str, Time, [], ap, arith, before, eq_iff, eq_refl, false, get, get-put,
  get-put-other, if◌then◌else◌, inc64_pos, int_eq, leb, length, le→not_ltb_ℤ, ltb_ℤ, lt→ltb_ℤ,
  max_int64, nat_eq, negsuc, none, not, pos, refl, some, str_eq, sub, sub-gt, suc, true, zero, ℕ, ℤ,
  ◌+ℤ◌, ◌+◌, ◌<ℤ◌, ◌<◌, ◌^◌, ◌∙◌, ◌∷◌, ◌≡◌, ◌≢◌, ◌≤ℤ◌,
}
use neurosentry.Platform.LoginGuard.{AttemptRecord, LoginGuard, allowed, record_failure}
use neurosentry.Platform.LoginGuard.Isolation.{admits, allowed-admits}

-- One failure after another, at the given times.
pub fail_all : LoginGuard → Str → List Time → LoginGuard
fail_all g key [] = g
fail_all g key (t ∷ ts) = fail_all (record_failure g t key) key ts

-- Failures of one key leave the others without a record.
pub fail_all-other :
    (g : LoginGuard) (key other : Str) (ts : List Time)
    → key ≢ other
    → get (fail_all g key ts).records other ≡ get g.records other
unfolding fail_all record_failure
fail_all-other g key other [] ne = refl
fail_all-other g key other (t ∷ ts) ne =
    fail_all-other (record_failure g t key) key other ts ne
    ∙ get-put-other g.records key other _ (ground (arith, eq_iff key other, ne))

-- The last of the times.
abbrev pub last_of : Time → List Time → Time
last_of t [] = t
last_of t (u ∷ us) = last_of u us

admits-locked :
    (now : Time) (failures : ℤ) (start : Time) (reached : Bool) (until : Time)
    → pos 0 <ℤ until
    → admits now (
        some (record {
          failures = failures;
          window_start = start;
          locked_until = if reached then until else pos 0;
        }))
      ≡ (if reached then not (before now until) else true)
admits-locked now failures start reached (pos zero) h = absurd (omega arith)
admits-locked now failures start true (pos (suc n)) h = ground arith
admits-locked now failures start false (pos (suc n)) h = refl
admits-locked now failures start reached (negsuc n) h = absurd (omega arith)

module _ (g : LoginGuard) (key : Str) (start : Time) (max : ℕ) where
  -- The record after `n` failures in the window that began at `start`, the last of them at `now`.
  abbrev tally : ℕ → Time → AttemptRecord
  tally n now = record {
    failures = pos n;
    window_start = start;
    locked_until = if leb max n then now +ℤ g.lockout else pos 0;
  }

  -- A failure in the open window counts; the one that reaches the threshold locks from its own time, and
  -- every further one locks anew.
  record_failure-tally :
      (records : Map Str AttemptRecord) (n : ℕ) (last now : Time)
      → g.max_failures ≡ pos max
      → n + 1 < 2 ^ 63
      → ltb_ℤ g.window (sub now start) ≡ false
      → get records key ≡ some (tally n last)
      → get (record_failure (record g { records = records }) now key).records key
        ≡ some (tally (n + 1) now)
  unfolding record_failure
  record_failure-tally records n last now m small open_ rec =
      rw (get-put, eq_refl key, rec) (ground (arith, inc64_pos n small))

  first_failure-tally :
      g.max_failures ≡ pos max
      → get g.records key ≡ none
      → get (record_failure g start key).records key ≡ some (tally 1 start)
  unfolding record_failure
  first_failure-tally m none_ =
      rw (get-put, eq_refl key, none_) (ground (arith, inc64_pos 0 (omega arith)))

  module _ (w : ℕ) (limit : g.max_failures ≡ pos max) (width : g.window ≡ pos w)
      (sane : w < max_int64) where
    -- Within the window that began at `start`.
    abbrev Within : Time → Type 0
    Within t = t ≤ℤ start +ℤ pos w

    Within-open : (t : Time) → Within t → ltb_ℤ g.window (sub t start) ≡ false
    Within-open t h = rw (width, sub-gt t start w sane) (le→not_ltb_ℤ (start +ℤ pos w) t h)

    fail_all-tally :
        (records : Map Str AttemptRecord) (n : ℕ) (last : Time) (ts : List Time)
        → n + length ts < 2 ^ 63
        → All Within ts
        → get records key ≡ some (tally n last)
        → get (fail_all (record g { records = records }) key ts).records key
          ≡ some (tally (n + length ts) (last_of last ts))
    unfolding fail_all record_failure
    fail_all-tally records n last [] small inside rec =
        rec ∙ ap (λ k. some (tally k last)) (omega arith)
    fail_all-tally records n last (t ∷ ts) small inside rec =
        fail_all-tally (record_failure (record g { records = records }) t key).records (n + 1) t ts
          (omega arith) inside.1
          (record_failure-tally records n last t limit (omega arith) (Within-open t inside.0) rec)
        ∙ ap (λ k. some (tally k (last_of t ts))) (omega arith)

    -- Failures of an identity with no record, all within the window of the first, lock it out exactly from
    -- the one that reaches the threshold: it is refused until the lockout has passed since the last of them,
    -- and admitted from then on. With fewer failures it is never refused.
    pub lockout_exact :
        (ts : List Time) (now : Time)
        → get g.records key ≡ none
        → 1 + length ts < 2 ^ 63
        → All Within ts
        → pos 0 <ℤ last_of start ts +ℤ g.lockout
        → (allowed (fail_all g key (start ∷ ts)) now key).1 ≡ (
            if leb max (1 + length ts)
            then not (before now (last_of start ts +ℤ g.lockout))
            else true)
    unfolding fail_all record_failure
    lockout_exact ts now none_ small inside later =
        allowed-admits _ now key
        ∙ ap (admits now) (
            fail_all-tally (record_failure g start key).records 1 start ts small inside
              (first_failure-tally limit none_))
        ∙ admits-locked now (pos (1 + length ts)) start (leb max (1 + length ts))
            (last_of start ts +ℤ g.lockout) later

-- In a guard that locks after more than one failure, a failure that is recorded after the window of the
-- identity's record starts a new count, whether or not the identity is locked out: it is admitted at once.
pub late_failure_unlocks :
    (g : LoginGuard) (now : Time) (key : Str) (rec : AttemptRecord) (w : ℕ)
    → get g.records key ≡ some rec
    → g.window ≡ pos w
    → w < max_int64
    → rec.window_start +ℤ pos w <ℤ now
    → pos 1 <ℤ g.max_failures
    → (allowed (record_failure g now key) now key).1 ≡ true
unfolding record_failure
late_failure_unlocks g now key rec w held width sane late many =
    allowed-admits _ now key
    ∙ rw (get-put, eq_refl key, held, width, sub-gt now rec.window_start w sane)
        (ground (arith, inc64_pos 0 (omega arith), lt→ltb_ℤ (rec.window_start +ℤ pos w) now late))
