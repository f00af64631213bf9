-- ===== src/Web/Login/Respelled.antt =====
-- pkg/web/auth_api.go: the login guard and a request that spells its email in another way.
use mathlib.Core.List.{append_cancel_left}
use neurosentry.Common.{
  All, Bool, List, Option, Str, Time, [], ap, arith, before, false, get, if◌then◌else◌, int_eq,
  is_empty, length, max_int64, nat_eq, none, not, pos, refl, some, str, str_eq, sym, to_lower,
  trim_space, true, ℕ, ◌++◌, ◌+ℤ◌, ◌+◌, ◌<ℤ◌, ◌<◌, ◌^◌, ◌∙◌, ◌∷◌, ◌≡◌, ◌≢◌, ◌≤ℤ◌, ◌≤◌,
}
use neurosentry.Platform.LoginGuard.{LoginGuard, allowed}
use neurosentry.Platform.LoginGuard.Isolation.{admits, allowed-admits}
use neurosentry.Platform.LoginGuard.Lockout.{fail_all, fail_all-other, last_of, lockout_exact}
use neurosentry.Platform.Tenants.{TenantStore}
use neurosentry.Platform.Users.{UserStore}
use neurosentry.Platform.Users.Provider.{authenticate}
use neurosentry.Platform.Tokens.{Codec}
use neurosentry.Platform.Session.{Authenticator}
use neurosentry.Web.Login.{
  Handled, LoginRequest, Readings, attempt, guard_allows, guard_key, handle_login, note, throttled,
}
use neurosentry.Web.Login.Guarded.{respelled, respelled-response}

-- The keys of two password logins that spell the email differently differ.
guard_key-respelled :
    (req : LoginRequest) (email : Str)
    → is_empty req.api_key ≡ true
    → req.email ≢ email
    → guard_key req ≢ guard_key (respelled req email)
unfolding guard_key
guard_key-respelled req email no_key differ e = differ (
    append_cancel_left (req.tenant_slug ++ str ":") req.email email
      (sym (key_is req.email) ∙ e ∙ key_is email))
  where
    key_is :
        (e : Str)
        → (if not (is_empty req.api_key) then str "apikey" else req.tenant_slug ++ str ":" ++ e)
          ≡ req.tenant_slug ++ str ":" ++ e
    key_is e = rw no_key refl

handle_login-refused :
    (codec : Codec) (g : LoginGuard) (tenants : TenantStore) (auth : Authenticator) (c : Readings)
    (req : LoginRequest)
    → (allowed g c.at_guard (guard_key req)).1 ≡ false
    → (handle_login codec (some g) tenants auth c (some req)).response ≡ throttled
unfolding handle_login guard_allows
handle_login-refused codec g tenants auth c req no_ = ap (λ b. (shown b).response) no_
  where
    left : Option LoginGuard
    left = some (allowed g c.at_guard (guard_key req)).0

    shown : Bool → Handled
    shown b =
        if not b
        then record {
          guard = left;
          notes = note (str "auth:lockout") (str "high") req req.email [] ∷ [];
          response = throttled;
        }
        else attempt codec left tenants auth c req

module _ (codec : Codec) (hash : Str → Str) (prf : Str → Str → Str) (g : LoginGuard) (max w : ℕ)
    (limit : g.max_failures ≡ pos max) (width : g.window ≡ pos w) (sane : w < max_int64) where
  -- The guard counts a password login under the email as the request spells it, while the store of users
  -- finds it in lower case and without white space around it. So take a password login by the local
  -- provider, and another spelling of its email, neither with a record in the guard. Once failures recorded
  -- for the request, within the window of the first, have reached the threshold, the handler throttles the
  -- request until the lockout has passed since the last of them, and with the same guard the request in the
  -- other spelling gets the response that the request itself would get from a server without a guard.
  pub handle_login-respelled :
      (tenants : TenantStore) (auth : Authenticator) (s : UserStore) (c : Readings)
      (req : LoginRequest) (email : Str) (start : Time) (ts : List Time)
      → is_empty req.api_key ≡ true
      → req.email ≢ email
      → to_lower (trim_space email) ≡ to_lower (trim_space req.email)
      → is_empty email ≡ is_empty req.email
      → get auth.providers (if is_empty req.provider then str "local" else req.provider)
        ≡ some (authenticate hash prf s)
      → get g.records (guard_key req) ≡ none
      → get g.records (guard_key (respelled req email)) ≡ none
      → max ≤ 1 + length ts
      → 1 + length ts < 2 ^ 63
      → All (λ t. t ≤ℤ start +ℤ pos w) ts
      → pos 0 <ℤ last_of start ts +ℤ g.lockout
      → before c.at_guard (last_of start ts +ℤ g.lockout) ≡ true
      → ((handle_login codec
            (some (fail_all g (guard_key req) (start ∷ ts)))
            tenants
            auth
            c
            (some req)).response
          ≡ throttled)
        × ((handle_login codec
              (some (fail_all g (guard_key req) (start ∷ ts)))
              tenants
              auth
              c
              (some (respelled req email))).response
            ≡ (handle_login codec none tenants auth c (some req)).response)
  unfolding guard_allows
  handle_login-respelled tenants auth s c req email start ts no_key differ same full known fresh
        fresh_other many small inside later locked =
      let key = guard_key req in
      let other = guard_key (respelled req email) in
      let g' = fail_all g key (start ∷ ts) in
      let refused : (allowed g' c.at_guard key).1 ≡ false =
        lockout_exact g key start max w limit width sane ts c.at_guard fresh small inside later
        ∙ ground (arith, many, locked) in
      let admitted : (allowed g' c.at_guard other).1 ≡ true =
        allowed-admits g' c.at_guard other
        ∙ ap (admits c.at_guard) (
            fail_all-other g key other (start ∷ ts) (guard_key-respelled req email no_key differ)
            ∙ fresh_other) in
      (
        handle_login-refused codec g' tenants auth c req refused,
        respelled-response codec hash prf (some g') tenants auth s c req email same full known
            admitted,
      )
