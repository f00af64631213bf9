-- ===== src/Gateway/Quota/Budget.antt =====
-- pkg/aigateway/quota.go: what Allow answers, and what it reserves.
use neurosentry.Common.{
  Bool, Bool-cases, Map, Option, Str, Time, [], eq_refl, false, get, get-put, if_related,
  if◌then◌else◌, inl, inr, int_eq, leb_ℤ, ltb_ℤ, nat_eq, none, not, put, refl, some, str, str_eq,
  true, wrap64, ℕ, ℤ, ◌&&◌, ◌+ℤ◌, ◌≡◌,
}
use neurosentry.Gateway.Quota.{
  Quota, QuotaManager, Window, allow, allow_quota, allow_tokens, day, is_over, limits, minute,
  opened, reserve, roll, roll_requests, roll_tokens, used,
}

-- The window that a call at `now` counts in.
abbrev pub current : Time → ℕ → Option Window → Window
current now period none = opened now
current now period (some w) = if is_over now period (some w) then opened now else w

pub get-roll :
    (m : Map Str Window) (now : Time) (period : ℕ) (tenant : Str)
    → get (roll m now period tenant) tenant ≡ some (current now period (get m tenant))
unfolding roll
get-roll m now period tenant = go (get m tenant) refl
  where
    go :
        (o : Option Window)
        → get m tenant ≡ o
        → get (if is_over now period o then put m tenant (opened now) else m) tenant
          ≡ some (current now period o)
    go none e = rw (get-put, eq_refl tenant)
    go (some w) e =
        if_related (λ (m' : Map Str Window) w'. get m' tenant ≡ some w')
          (is_over now period (some w)) (is_over now period (some w)) _ _ _ _ refl
          (λ _. rw (get-put, eq_refl tenant)) (λ _. e)

module _ (q : QuotaManager) (now : Time) (tenant : Str) (tokens : ℤ) (quota : Quota) where
  abbrev pub requests_window : Window
  requests_window = current now minute (get q.req_win tenant)

  abbrev pub tokens_window : Window
  tokens_window = current now day (get q.tok_win tenant)

  -- The manager after the windows have been rolled.
  abbrev pub rolled_requests : QuotaManager
  rolled_requests = roll_requests q now tenant quota

  abbrev pub rolled : QuotaManager
  rolled = roll_tokens (roll_requests q now tenant quota) now tenant quota

  abbrev pub requests_full : Bool
  requests_full =
      limits quota.max_requests_per_min && leb_ℤ quota.max_requests_per_min requests_window.count

  abbrev pub tokens_full : Bool
  tokens_full =
      limits quota.max_tokens_per_day
      && ltb_ℤ quota.max_tokens_per_day (wrap64 (tokens_window.count +ℤ tokens))

  requests-test :
      (limits quota.max_requests_per_min
        && leb_ℤ quota.max_requests_per_min (used (get rolled_requests.req_win tenant)))
      ≡ requests_full
  unfolding roll_requests used
  requests-test = elim (Bool-cases (limits quota.max_requests_per_min)) [
    | inl h ↦ rw h (rw get-roll refl)
    | inr h ↦ rw h
  ]

  tokens-test :
      (limits quota.max_tokens_per_day
        && ltb_ℤ quota.max_tokens_per_day (wrap64 (used (get rolled.tok_win tenant) +ℤ tokens)))
      ≡ tokens_full
  unfolding roll_requests roll_tokens used
  tokens-test = elim (Bool-cases (limits quota.max_tokens_per_day)) [
    | inl h ↦ rw h (rw get-roll refl)
    | inr h ↦ rw h
  ]

  -- What Allow returns, by what the windows leave room for.
  abbrev pub verdict : Bool → Bool → QuotaManager × Bool × Str
  verdict no_requests no_tokens =
      if no_requests
      then (rolled_requests, false, str "request rate limit exceeded")
      else if no_tokens
      then (rolled, false, str "daily token quota exceeded")
      else (reserve rolled tenant quota tokens, true, [])

  -- Allow for a tenant with a quota: the windows that are over start anew, and a request passes, and takes
  -- one of the minute's requests and its tokens from the day's, exactly when the limits of the windows
  -- leave room for it. A refusal takes nothing.
  pub allow_lem :
      get q.quotas tenant ≡ some quota
      → allow q now tenant tokens ≡ verdict requests_full tokens_full
  unfolding allow allow_quota allow_tokens
  allow_lem e =
      rw (e, allow)
        (if_related ◌≡◌ _ _ _ _ _ _ requests-test (λ _. refl)
          λ _. if_related ◌≡◌ _ _ _ _ _ _ tokens-test (λ _. refl) (λ _. refl))

  pub verdict_cases : (a b : Bool) → (verdict a b).1 ≡ not a && not b
  verdict_cases true b = refl
  verdict_cases false true = refl
  verdict_cases false false = refl
