-- ===== src/Gateway/Quota.antt =====
-- pkg/aigateway/quota.go: request and token budgets of the tenants. A window is held by pointer in its
-- map only, so a change through the pointer is a `put`.
pub mod Budget
pub mod Windows
pub mod Rate
pub mod Settle
use neurosentry.Common.{
  Bool, Map, Option, Str, Time, [], false, get, if◌then◌else◌, int_eq, leb_ℤ, ltb_ℤ, nat_eq, none,
  pos, put, second, some, str, str_eq, sub, true, wrap64, ℕ, ℤ, ◌&&◌, ◌*◌, ◌+ℤ◌, ◌-ℤ◌,
}

pub record Quota : Type 0 where
  pub max_requests_per_min : ℤ
  pub max_tokens_per_day : ℤ

pub record Window : Type 0 where
  pub start : Time
  pub count : ℤ

pub record QuotaManager : Type 0 where
  pub quotas : Map Str Quota
  pub req_win : Map Str Window
  pub tok_win : Map Str Window

-- NewQuotaManager
unfoldable pub new : QuotaManager
new = record { quotas = []; req_win = []; tok_win = [] }

-- SetQuota
unfoldable pub set_quota : QuotaManager → Str → Quota → QuotaManager
set_quota q tenant quota = record q { quotas = put q.quotas tenant quota }

abbrev pub minute : ℕ
minute = 60 * second

abbrev pub day : ℕ
day = 24 * 60 * 60 * second

-- `w == nil || now.Sub(w.start) >= period`
unfoldable pub is_over : Time → ℕ → Option Window → Bool
is_over now period none = true
is_over now period (some w) = leb_ℤ (pos period) (sub now w.start)

abbrev pub opened : Time → Window
opened now = record { start = now; count = pos 0 }

-- The tenant's window, replaced by an empty one that starts now where it is missing or over.
pub roll : Map Str Window → Time → ℕ → Str → Map Str Window
unfolding is_over
roll m now period tenant =
    if is_over now period (get m tenant) then put m tenant (opened now) else m

pub used : Option Window → ℤ
used none = pos 0
used (some w) = w.count

-- `m[tenant].count += n` on an int64. The window is there: `roll` has run. (On a missing one the code
-- would panic; `Budget.get-roll` shows that it is never missing.)
pub spend_in : Map Str Window → Str → ℤ → Option Window → Map Str Window
spend_in m tenant n none = m
spend_in m tenant n (some w) = put m tenant (record w { count = wrap64 (w.count +ℤ n) })

pub spend : Map Str Window → Str → ℤ → Map Str Window
unfolding spend_in
spend m tenant n = spend_in m tenant n (get m tenant)

-- A limit that is not positive means unlimited.
pub limits : ℤ → Bool
limits n = ltb_ℤ (pos 0) n

pub roll_requests : QuotaManager → Time → Str → Quota → QuotaManager
unfolding roll
roll_requests q now tenant quota = record q {
  req_win =
      if limits quota.max_requests_per_min then roll q.req_win now minute tenant else q.req_win;
}

pub roll_tokens : QuotaManager → Time → Str → Quota → QuotaManager
unfolding roll
roll_tokens q now tenant quota = record q {
  tok_win = if limits quota.max_tokens_per_day then roll q.tok_win now day tenant else q.tok_win;
}

-- The two reservations at the end of Allow.
pub reserve : QuotaManager → Str → Quota → ℤ → QuotaManager
unfolding spend
reserve q tenant quota tokens = record q {
  req_win = if limits quota.max_requests_per_min then spend q.req_win tenant (pos 1) else q.req_win;
  tok_win = if limits quota.max_tokens_per_day then spend q.tok_win tenant tokens else q.tok_win;
}

-- Allow, from the daily-token window on.
pub allow_tokens : QuotaManager → Time → Str → ℤ → Quota → QuotaManager × Bool × Str
unfolding roll_tokens reserve used limits
allow_tokens q now tenant tokens quota =
    let q' = roll_tokens q now tenant quota in
    if limits quota.max_tokens_per_day
      && ltb_ℤ quota.max_tokens_per_day (wrap64 (used (get q'.tok_win tenant) +ℤ tokens))
    then (q', false, str "daily token quota exceeded")
    else (reserve q' tenant quota tokens, true, [])

-- Allow, from the request-rate window on.
pub allow_quota : QuotaManager → Time → Str → ℤ → Quota → QuotaManager × Bool × Str
unfolding roll_requests allow_tokens used limits
allow_quota q now tenant tokens quota =
    let q' = roll_requests q now tenant quota in
    if limits quota.max_requests_per_min
      && leb_ℤ quota.max_requests_per_min (used (get q'.req_win tenant))
    then (q', false, str "request rate limit exceeded")
    else allow_tokens q' now tenant tokens quota

-- Allow
pub allow : QuotaManager → Time → Str → ℤ → QuotaManager × Bool × Str
unfolding allow_quota
allow q now tenant tokens = elim (get q.quotas tenant) [
  | none ↦ (q, true, [])
  | some quota ↦ allow_quota q now tenant tokens quota
]

-- SettleTokens
pub settled : Window → ℤ → ℤ → Window
settled w estimated actual =
    let count = wrap64 (w.count +ℤ wrap64 (actual -ℤ estimated)) in
    record w { count = if ltb_ℤ count (pos 0) then pos 0 else count }

pub settle_tokens : QuotaManager → Str → ℤ → ℤ → QuotaManager
unfolding settled
settle_tokens q tenant estimated actual = elim (get q.tok_win tenant) [
  | none ↦ q
  | some w ↦ record q { tok_win = put q.tok_win tenant (settled w estimated actual) }
]
