-- ===== src/Gateway/Quota/Windows.antt =====
-- pkg/aigateway/quota.go: what a call does to the request windows, and what it leaves alone.
use neurosentry.Common.{
  Bool, Map, Option, Str, Time, ap, eq_refl, false, get, get-put, get-put-other, if_cases,
  if◌then◌else◌, inc64, int_eq, nat_eq, none, pos, put, refl, some, str_eq, true, wrap64, ℕ, ℤ,
  ◌+ℤ◌, ◌==◌, ◌∙◌, ◌≡◌,
}
use neurosentry.Gateway.Quota.{
  Quota, QuotaManager, Window, allow, is_over, limits, minute, opened, reserve, roll, roll_requests,
  roll_tokens, settle_tokens, settled, spend, spend_in,
}
use neurosentry.Gateway.Quota.Budget.{
  allow_lem, get-roll, requests_window, rolled_requests, verdict,
}

pub get-spend :
    (m : Map Str Window) (tenant : Str) (n : ℤ) (w : Window)
    → get m tenant ≡ some w
    → get (spend m tenant n) tenant ≡ some (record w { count = wrap64 (w.count +ℤ n) })
unfolding spend
get-spend m tenant n w e = rw (e, spend_in) (rw (get-put, eq_refl tenant))

module _ (q : QuotaManager) (now : Time) (tenant : Str) (tokens : ℤ) (quota : Quota) where
  abbrev w : Window
  w = requests_window q now tenant tokens quota

  rolled-get :
      limits quota.max_requests_per_min ≡ true
      → get (rolled_requests q now tenant tokens quota).req_win tenant ≡ some w
  unfolding roll_requests
  rolled-get h = rw h (get-roll q.req_win now minute tenant)

  pub verdict-requests :
      (a b : Bool)
      → limits quota.max_requests_per_min ≡ true
      → get (verdict q now tenant tokens quota a b).0.req_win tenant
        ≡ some (
            if (verdict q now tenant tokens quota a b).1
            then record w { count = inc64 w.count }
            else w)
  unfolding roll_tokens reserve inc64
  verdict-requests true b h = rolled-get h
  verdict-requests false true h = rolled-get h
  verdict-requests false false h = rw h (get-spend _ tenant (pos 1) w (rolled-get h))

  pub verdict-quotas : (a b : Bool) → (verdict q now tenant tokens quota a b).0.quotas ≡ q.quotas
  unfolding roll_tokens roll_requests reserve
  verdict-quotas true b = refl
  verdict-quotas false true = refl
  verdict-quotas false false = refl

-- Allow for one tenant leaves the window of another alone.
get-roll_other :
    (m : Map Str Window) (now : Time) (period : ℕ) (who tenant : Str)
    → (who == tenant) ≡ false
    → get (roll m now period who) tenant ≡ get m tenant
unfolding roll
get-roll_other m now period who tenant ne =
    if_cases (λ (m' : Map Str Window). get m' tenant ≡ get m tenant)
      (is_over now period (get m who)) _ _ (λ _. get-put-other m who tenant (opened now) ne)
      (λ _. refl)

get-spend_other :
    (m : Map Str Window) (who tenant : Str) (n : ℤ)
    → (who == tenant) ≡ false
    → get (spend m who n) tenant ≡ get m tenant
unfolding spend spend_in
get-spend_other m who tenant n ne = spent (get m who)
  where
    spent : (o : Option Window) → get (spend_in m who n o) tenant ≡ get m tenant
    spent none = refl
    spent (some w) = get-put-other m who tenant _ ne

module _ (q : QuotaManager) (now : Time) (who tenant : Str) (tokens : ℤ)
    (ne : (who == tenant) ≡ false) where
  rolled-other :
      (quota : Quota)
      → get (rolled_requests q now who tokens quota).req_win tenant ≡ get q.req_win tenant
  unfolding roll_requests
  rolled-other quota =
      if_cases (λ (m : Map Str Window). get m tenant ≡ get q.req_win tenant)
        (limits quota.max_requests_per_min) _ _
        (λ _. get-roll_other q.req_win now minute who tenant ne) (λ _. refl)

  verdict-other :
      (quota : Quota) (a b : Bool)
      → get (verdict q now who tokens quota a b).0.req_win tenant ≡ get q.req_win tenant
  unfolding roll_tokens reserve
  verdict-other quota true b = rolled-other quota
  verdict-other quota false true = rolled-other quota
  verdict-other quota false false =
      if_cases (λ (m : Map Str Window). get m tenant ≡ get q.req_win tenant)
        (limits quota.max_requests_per_min) _ _
        (λ _. get-spend_other _ who tenant (pos 1) ne ∙ rolled-other quota)
        (λ _. rolled-other quota)

  pub allow-other :
      (o : Option Quota)
      → get q.quotas who ≡ o
      → get (allow q now who tokens).0.req_win tenant ≡ get q.req_win tenant
  unfolding allow
  allow-other none e = rw (e, allow) refl
  allow-other (some quota) e =
      ap (λ (r : QuotaManager × Bool × Str). get r.0.req_win tenant)
        (allow_lem q now who tokens quota e)
      ∙ verdict-other quota _ _

-- Allow configures nothing.
pub allow-quotas :
    (q : QuotaManager) (now : Time) (who : Str) (tokens : ℤ) (o : Option Quota)
    → get q.quotas who ≡ o
    → (allow q now who tokens).0.quotas ≡ q.quotas
unfolding allow
allow-quotas q now who tokens none e = rw (e, allow) refl
allow-quotas q now who tokens (some quota) e =
    ap (λ (r : QuotaManager × Bool × Str). r.0.quotas) (allow_lem q now who tokens quota e)
    ∙ verdict-quotas q now who tokens quota _ _

-- SettleTokens touches no request window and no quota.
pub settle-keeps :
    (q : QuotaManager) (who : Str) (estimated actual : ℤ)
    → ((settle_tokens q who estimated actual).req_win ≡ q.req_win)
      × ((settle_tokens q who estimated actual).quotas ≡ q.quotas)
unfolding settle_tokens
settle-keeps q who estimated actual = settled_by (get q.tok_win who)
  where
    after_it : Option Window → QuotaManager
    after_it o = elim o [
      | none ↦ q
      | some w ↦ record q { tok_win = put q.tok_win who (settled w estimated actual) }
    ]

    settled_by :
        (o : Option Window) → ((after_it o).req_win ≡ q.req_win) × ((after_it o).quotas ≡ q.quotas)
    settled_by none = (refl, refl)
    settled_by (some w) = (refl, refl)
