-- ===== src/Gateway/Quota/Settle.antt =====
-- pkg/aigateway/quota.go: reconciling a reservation with the actual use.
use neurosentry.Common.{
  Bool, IsInt64, Str, Time, ap, ap₂, eq_of_parts, eq_refl, false, get, get-put, if◌then◌else◌,
  int_eq, int_laws, ltb_ℤ, lt→ltb_ℤ, nat_eq, pos, some, str_eq, true, wrap64, wrap64_id, ℤ, ◌+ℤ◌,
  ◌-ℤ◌, ◌<ℤ◌, ◌∙◌, ◌≡◌,
}
use neurosentry.Gateway.Quota.{
  Quota, QuotaManager, Window, allow, day, limits, reserve, roll_requests, roll_tokens,
  settle_tokens, settled,
}
use neurosentry.Gateway.Quota.Budget.{allow_lem, get-roll, tokens_window, verdict}
use neurosentry.Gateway.Quota.Windows.{get-spend}

abbrev pub at_least_zero : ℤ → ℤ
at_least_zero n = if ltb_ℤ n (pos 0) then pos 0 else n

regroup : (c e a : ℤ) → c +ℤ e +ℤ (a -ℤ e) ≡ c +ℤ a
regroup c e a = eq_of_parts _ _ (omega int_laws)

-- Without overflow a reservation that is settled amounts to the actual use.
settled-spent :
    (w : Window) (estimated actual : ℤ)
    → IsInt64 (w.count +ℤ estimated)
    → IsInt64 (actual -ℤ estimated)
    → IsInt64 (w.count +ℤ actual)
    → settled (record w { count = wrap64 (w.count +ℤ estimated) }) estimated actual
      ≡ record w { count = at_least_zero (w.count +ℤ actual) }
unfolding settled
settled-spent w estimated actual a b c =
    ap (λ n. record w { count = at_least_zero n })
      (ap₂ (λ x y. wrap64 (x +ℤ y)) (wrap64_id _ a) (wrap64_id _ b)
        ∙ ap wrap64 (regroup w.count estimated actual)
        ∙ wrap64_id _ c)

get-settle :
    (q : QuotaManager) (tenant : Str) (estimated actual : ℤ) (w : Window)
    → get q.tok_win tenant ≡ some w
    → get (settle_tokens q tenant estimated actual).tok_win tenant
      ≡ some (settled w estimated actual)
unfolding settle_tokens
get-settle q tenant estimated actual w e = rw (e, settle_tokens) (rw (get-put, eq_refl tenant))

module _ (q : QuotaManager) (now : Time) (tenant : Str) (tokens : ℤ) (quota : Quota) where
  abbrev v : Window
  v = tokens_window q now tenant tokens quota

  verdict-tokens :
      (a b : Bool)
      → limits quota.max_tokens_per_day ≡ true
      → (verdict q now tenant tokens quota a b).1 ≡ true
      → get (verdict q now tenant tokens quota a b).0.tok_win tenant
        ≡ some (record v { count = wrap64 (v.count +ℤ tokens) })
  unfolding roll_requests roll_tokens reserve
  verdict-tokens true b h p = cc
  verdict-tokens false true h p = cc
  verdict-tokens false false h p =
      rw h (get-spend _ tenant tokens v (get-roll q.tok_win now day tenant))

  allow-tokens :
      get q.quotas tenant ≡ some quota
      → pos 0 <ℤ quota.max_tokens_per_day
      → (allow q now tenant tokens).1 ≡ true
      → get (allow q now tenant tokens).0.tok_win tenant
        ≡ some (record v { count = wrap64 (v.count +ℤ tokens) })
  unfolding limits
  allow-tokens cfg limited passed = rw (allow_lem q now tenant tokens quota cfg) (
      verdict-tokens _ _ (lt→ltb_ℤ (pos 0) quota.max_tokens_per_day limited)
        (rw (allow_lem q now tenant tokens quota cfg) at passed))

-- A request that passed, once it is settled, has taken its actual tokens from the day's window: the
-- estimate is gone from the count, which never ends below zero. No sum may leave the int64 range.
pub settle-allow :
    (q : QuotaManager) (now : Time) (tenant : Str) (estimated actual : ℤ) (quota : Quota)
    → let w = tokens_window q now tenant estimated quota in
      get q.quotas tenant ≡ some quota
      → pos 0 <ℤ quota.max_tokens_per_day
      → (allow q now tenant estimated).1 ≡ true
      → IsInt64 (w.count +ℤ estimated)
      → IsInt64 (actual -ℤ estimated)
      → IsInt64 (w.count +ℤ actual)
      → get (settle_tokens (allow q now tenant estimated).0 tenant estimated actual).tok_win tenant
        ≡ some (record w { count = at_least_zero (w.count +ℤ actual) })
settle-allow q now tenant estimated actual quota cfg limited passed a b c =
    get-settle _ tenant estimated actual _
      (allow-tokens q now tenant estimated quota cfg limited passed)
    ∙ ap some (settled-spent (tokens_window q now tenant estimated quota) estimated actual a b c)
