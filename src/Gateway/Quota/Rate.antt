-- ===== src/Gateway/Quota/Rate.antt =====
-- pkg/aigateway/quota.go: how many requests a window lets through.
use neurosentry.Common.{
  All, Bool, Bool-cases, List, Option, Str, Time, [], ap, arith, eq_iff, eq_refl, false, get,
  if◌then◌else◌, inc64, inc64_pos, inl, inr, int_eq, nat_eq, none, pos, refl, some, str_eq, sub-ge,
  subst, sym, true, ℕ, ℤ, ◌&&◌, ◌+ℤ◌, ◌+◌, ◌<ℤ◌, ◌<◌, ◌==◌, ◌^◌, ◌∙◌, ◌∷◌, ◌≡◌, ◌≤◌,
}
use neurosentry.Gateway.Quota.{
  Quota, QuotaManager, Window, allow, is_over, limits, minute, opened, settle_tokens,
}
use neurosentry.Gateway.Quota.Budget.{allow_lem, current, requests_full, requests_window, verdict}
use neurosentry.Gateway.Quota.Windows.{allow-other, allow-quotas, settle-keeps, verdict-requests}

-- The calls of a manager while it serves: Allow and SettleTokens, of any tenants.
pub data Call : Type 0 where
  asks : Time → Str → ℤ → Call
  settles : Str → ℤ → ℤ → Call

-- How many requests of one tenant pass in a sequence of calls of all tenants.
pub granted : QuotaManager → Str → List Call → ℕ
granted q tenant [] = 0
granted q tenant (asks now who tokens ∷ cs) =
    (if (who == tenant) && (allow q now who tokens).1 then 1 else 0)
    + granted (allow q now who tokens).0 tenant cs
granted q tenant (settles who estimated actual ∷ cs) =
    granted (settle_tokens q who estimated actual) tenant cs

module _ (tenant : Str) (quota : Quota) (max : ℕ) (limit : quota.max_requests_per_min ≡ pos max)
    (small : max < 2 ^ 63) (start : Time) where
  abbrev InMinute : Call → Type 0
  InMinute (asks now who tokens) = now <ℤ start +ℤ pos minute
  InMinute (settles who estimated actual) = Unit

  abbrev open_at : ℕ → Option Window
  open_at k = some (record { start = start; count = pos k })

  -- After an answer the window has counted it, within the limit.
  abbrev Counts : ℕ → QuotaManager × Bool × Str → Type 0
  Counts k r =
      (get r.0.req_win tenant ≡ open_at (if r.1 then k + 1 else k))
      × ((if r.1 then k + 1 else k) ≤ max)

  still-open :
      (now : Time) (k : ℕ)
      → now <ℤ start +ℤ pos minute
      → current now minute (open_at k) ≡ record { start = start; count = pos k }
  unfolding is_over
  still-open now k h = rw (sub-ge now start minute (omega arith)) (ground (arith))

  limited : 0 < max → limits quota.max_requests_per_min ≡ true
  unfolding limits
  limited h = rw limit (ground arith)

  module _ (q : QuotaManager) (now : Time) (tokens : ℤ) (k : ℕ) (pos_ : 0 < max)
      (window_now : requests_window q now tenant tokens quota
        ≡ record { start = start; count = pos k }) where
    room_left : requests_full q now tenant tokens quota ≡ false → k < max
    room_left h = ground (arith, limited pos_, limit, rw (limited pos_, limit, window_now) at h)

    one_verdict :
        (a b : Bool)
        → k ≤ max
        → (a ≡ false → k < max)
        → Counts k (verdict q now tenant tokens quota a b)
    one_verdict true b le room =
        (verdict-requests q now tenant tokens quota true b (limited pos_) ∙ ap some window_now, le)
    one_verdict false true le room = (
      verdict-requests q now tenant tokens quota false true (limited pos_) ∙ ap some window_now,
      le,
    )
    one_verdict false false le room = (
      verdict-requests q now tenant tokens quota false false (limited pos_)
          ∙ ap (λ (v : Window). some (record v { count = inc64 v.count })) window_now
          ∙ ap (λ n. counted n) (inc64_pos k (omega (arith, room refl))),
      omega (arith, room refl),
    )
      where
        counted : ℤ → Option Window
        counted n = some (record { start = start; count = n })

    -- A request in the open window passes only while the count is below the limit, and then counts.
    one_request : k ≤ max → get q.quotas tenant ≡ some quota → Counts k (allow q now tenant tokens)
    one_request le cfg = rw (allow_lem q now tenant tokens quota cfg) (one_verdict _ _ le room_left)

  -- What a window that has counted `k` allows: a bound for the calls that follow.
  granted_bound :
      (cs : List Call) (q : QuotaManager) (k : ℕ)
      → 0 < max
      → k ≤ max
      → get q.quotas tenant ≡ some quota
      → get q.req_win tenant ≡ open_at k
      → All InMinute cs
      → k + granted q tenant cs ≤ max
  unfolding granted
  granted_bound [] q k pos_ le cfg win inside = omega arith
  granted_bound (settles who estimated actual ∷ cs) q k pos_ le cfg win inside =
      let keeps = settle-keeps q who estimated actual in
      granted_bound cs (settle_tokens q who estimated actual) k pos_ le
        (ap (λ m. get m tenant) keeps.1 ∙ cfg) (ap (λ m. get m tenant) keeps.0 ∙ win) inside.1
  granted_bound (asks now who tokens ∷ cs) q k pos_ le cfg win inside =
      let q' = (allow q now who tokens).0 in
      let kept : get q'.quotas tenant ≡ some quota =
        ap (λ m. get m tenant) (allow-quotas q now who tokens (get q.quotas who) refl) ∙ cfg in
      let rest : (k' : ℕ)
          → k' ≤ max
          → get q'.req_win tenant ≡ open_at k'
          → k' + granted q' tenant cs ≤ max =
        λ k' le' win'. granted_bound cs q' k' pos_ le' kept win' inside.1 in
      elim (Bool-cases (who == tenant)) [
        | inr other ↦
            let later =
              rest k le (allow-other q now who tenant tokens other (get q.quotas who) refl ∙ win) in
            rw other (omega (arith, later))
        | inl same ↦
            let one =
              subst (λ t. Counts k (allow q now t tokens)) (sym ((eq_iff who tenant).0 same))
                (one_request q now tokens k pos_
                  (ap (current now minute) win ∙ still-open now k inside.0) le cfg) in
            let later = rest (if (allow q now who tokens).1 then k + 1 else k) one.1 one.0 in
            rw same (ground (arith, later))
      ]

  new-window :
      (o : Option Window) → is_over start minute o ≡ true → current start minute o ≡ opened start
  new-window none h = refl
  new-window (some w) h = rw h

  -- From a request of a tenant that opens a new window on, that one included, no more of the tenant's
  -- requests pass within a minute than its limit, whatever all tenants ask and settle in between.
  pub rate_limit :
      (q : QuotaManager) (tokens : ℤ) (cs : List Call)
      → 0 < max
      → get q.quotas tenant ≡ some quota
      → is_over start minute (get q.req_win tenant) ≡ true
      → All InMinute cs
      → granted q tenant (asks start tenant tokens ∷ cs) ≤ max
  unfolding granted
  rate_limit q tokens cs pos_ cfg over inside =
      let window_now = new-window (get q.req_win tenant) over in
      let one = one_request q start tokens 0 pos_ window_now (omega arith) cfg in
      let later =
        granted_bound cs (allow q start tenant tokens).0
          (if (allow q start tenant tokens).1 then 0 + 1 else 0) pos_ one.1
          (ap (λ m. get m tenant) (allow-quotas q start tenant tokens (some quota) cfg) ∙ cfg) one.0
          inside in
      rw (eq_refl tenant) (ground (arith, later))
