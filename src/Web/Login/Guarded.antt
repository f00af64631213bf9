-- ===== src/Web/Login/Guarded.antt =====
-- pkg/web/auth_api.go: what the login handler promises, and what its guard does not see.
use neurosentry.Common.{
  Bool, Option, Str, [], ap, ap₂, get, if_cases, if◌then◌else◌, inl, inr, int_eq, is_empty, nat_eq,
  none, not, not-false, refl, some, str, str_eq, sym, to_lower, trim_space, true, ◌++◌, ◌||◌, ◌∙◌,
  ◌∷◌, ◌≡◌, ◌⊎◌,
}
use neurosentry.Platform.LoginGuard.{LoginGuard}
use neurosentry.Platform.Rbac.{Principal}
use neurosentry.Platform.Tenants.{TenantStore}
use neurosentry.Platform.Users.{UserStore, email_key, get_by_email, resolve_api_key}
use neurosentry.Platform.Users.Provider.{
  Credentials, Outcome, authenticate, bad_credentials, missing, refused, with_key, with_password,
}
use neurosentry.Platform.Tokens.{Codec}
use neurosentry.Platform.Session.{
  Authenticator, IdentityProvider, LoginFailure, issued, login, not_issued, provider_crash,
  rejected, unknown_provider,
}
use neurosentry.Web.Login.{
  Handled, LoginRequest, Readings, answer, attempt, credentials, guard_allows, guard_failure,
  guard_key, guard_success, handle_login, invalid, login_tenant, note, throttled, welcome,
}

abbrev logged_in : Str → Principal → LoginFailure ⊎ (Str × Principal)
logged_in token p = inr (token, p)

module _ (codec : Codec) (tenants : TenantStore) (auth : Authenticator) (c : Readings) where
  attempt_sound :
      (g : Option LoginGuard) (req : LoginRequest) (token : Str) (p : Principal)
      → (attempt codec g tenants auth c req).response ≡ welcome token p
      → (tenant : Str) × (login_tenant tenants req ≡ some tenant)
        × (login codec auth c.at_token req.provider (credentials req tenant) ≡ inr (token, p))
        × ((attempt codec g tenants auth c req).guard ≡ guard_success g (guard_key req))
  unfolding attempt answer
  attempt_sound g req token p h = found (login_tenant tenants req) refl h
    where
      Sound : Handled → Type 0
      Sound x =
          (tenant : Str) × (login_tenant tenants req ≡ some tenant)
          × (login codec auth c.at_token req.provider (credentials req tenant) ≡ inr (token, p))
          × (x.guard ≡ guard_success g (guard_key req))

      tried : Option Str → Handled
      tried o = elim o [
        | none ↦ record {
          guard = guard_failure g c.at_failure (guard_key req);
          notes = [];
          response = invalid;
        }
        | some tenant ↦
            answer g c req (login codec auth c.at_token req.provider (credentials req tenant))
      ]

      same : {t : Str} {q : Principal} → welcome t q ≡ welcome token p → (t ≡ token) × (q ≡ p)
      same e = (cc, cc)

      pair : (t : Str) (q : Principal) → (t ≡ token) × (q ≡ p) → logged_in t q ≡ logged_in token p
      pair t q (e, f) = ap₂ logged_in e f

      answered :
          (tenant : Str) (v : LoginFailure ⊎ (Str × Principal))
          → login_tenant tenants req ≡ some tenant
          → login codec auth c.at_token req.provider (credentials req tenant) ≡ v
          → (answer g c req v).response ≡ welcome token p
          → Sound (answer g c req v)
      answered tenant (inl provider_crash) e f k = cc
      answered tenant (inl unknown_provider) e f k = cc
      answered tenant (inl not_issued) e f k = cc
      answered tenant (inl (rejected r)) e f k = cc
      answered tenant (inr (t, q)) e f k = (tenant, e, f ∙ pair t q (same k), refl)

      found :
          (o : Option Str)
          → login_tenant tenants req ≡ o
          → (tried o).response ≡ welcome token p
          → Sound (tried o)
      found none e k = cc
      found (some tenant) e k =
          answered tenant (login codec auth c.at_token req.provider (credentials req tenant)) e refl
            k

  -- The handler hands out a token only if the guard, where there is one, allows the key of the request,
  -- the slug is a tenant's (or none is needed), and the authenticator logs the user in with it; the
  -- failures of the key are then forgotten.
  pub handle_login_sound :
      (g : Option LoginGuard) (req : LoginRequest) (token : Str) (p : Principal)
      → (handle_login codec g tenants auth c (some req)).response ≡ welcome token p
      → ((guard_allows g c.at_guard (guard_key req)).1 ≡ true)
        × ((tenant : Str) × (login_tenant tenants req ≡ some tenant)
            × (login codec auth c.at_token req.provider (credentials req tenant) ≡ inr (token, p))
            × ((handle_login codec g tenants auth c (some req)).guard
                ≡ guard_success (guard_allows g c.at_guard (guard_key req)).0 (guard_key req)))
  unfolding handle_login
  handle_login_sound g req token p h =
      if_cases (λ (x : Handled). x.response ≡ welcome token p → Sound x) (not asked.1) _ _
        (λ _ k. cc) (λ allows k. (not-false _ allows, attempt_sound asked.0 req token p k)) h
    where
      asked : Option LoginGuard × Bool
      asked = guard_allows g c.at_guard (guard_key req)

      Sound : Handled → Type 0
      Sound x =
          (asked.1 ≡ true)
          × ((tenant : Str) × (login_tenant tenants req ≡ some tenant)
              × (login codec auth c.at_token req.provider (credentials req tenant) ≡ inr (token, p))
              × (x.guard ≡ guard_success asked.0 (guard_key req)))

-- A request that spells the email differently.
abbrev pub respelled : LoginRequest → Str → LoginRequest
respelled req email = record req { email = email }

module _ (codec : Codec) (hash : Str → Str) (prf : Str → Str → Str) where
  authenticate-respelled :
      (s : UserStore) (req : LoginRequest) (email tenant : Str)
      → to_lower (trim_space email) ≡ to_lower (trim_space req.email)
      → is_empty email ≡ is_empty req.email
      → authenticate hash prf s (credentials (respelled req email) tenant)
        ≡ authenticate hash prf s (credentials req tenant)
  unfolding authenticate get_by_email email_key credentials
  authenticate-respelled s req email tenant same full = ap₂ outcome full same
    where
      outcome : Bool → Str → Outcome
      outcome blank normal =
          if not (is_empty req.api_key)
          then with_key s (resolve_api_key hash s req.api_key)
          else if blank || is_empty req.password
          then refused missing
          else elim (get s.by_email (tenant ++ 0 ∷ normal)) [
            | none ↦ refused bad_credentials
            | some r ↦ with_password hash prf (s.heap r) req.password
          ]

  answer_response :
      (g k : Option LoginGuard) (c : Readings) (req other : LoginRequest)
      (v : LoginFailure ⊎ (Str × Principal))
      → (answer g c req v).response ≡ (answer k c other v).response
  unfolding answer
  answer_response g k c req other (inl provider_crash) = refl
  answer_response g k c req other (inl unknown_provider) = refl
  answer_response g k c req other (inl not_issued) = refl
  answer_response g k c req other (inl (rejected f)) = refl
  answer_response g k c req other (inr (t, q)) = refl

  attempt-respelled :
      (g : Option LoginGuard) (tenants : TenantStore) (auth : Authenticator) (s : UserStore)
      (c : Readings) (req : LoginRequest) (email : Str)
      → to_lower (trim_space email) ≡ to_lower (trim_space req.email)
      → is_empty email ≡ is_empty req.email
      → get auth.providers (if is_empty req.provider then str "local" else req.provider)
        ≡ some (authenticate hash prf s)
      → (attempt codec g tenants auth c (respelled req email)).response
        ≡ (attempt codec none tenants auth c req).response
  unfolding attempt login
  attempt-respelled g tenants auth s c req email same full known = go (login_tenant tenants req)
    where
      local_provider : Str → LoginRequest → LoginFailure ⊎ (Str × Principal)
      local_provider tenant r = login codec auth c.at_token req.provider (credentials r tenant)

      tried : Option LoginGuard → LoginRequest → Option Str → Handled
      tried k r o = elim o [
        | none ↦ record {
          guard = guard_failure k c.at_failure (guard_key r);
          notes = [];
          response = invalid;
        }
        | some tenant ↦ answer k c r (local_provider tenant r)
      ]

      asked : Option IdentityProvider → Credentials → LoginFailure ⊎ (Str × Principal)
      asked o creds = elim o [
        | none ↦ inl unknown_provider
        | some p ↦ issued codec auth.issuer c.at_token (p creds)
      ]

      logs_in :
          (tenant : Str) → local_provider tenant (respelled req email) ≡ local_provider tenant req
      logs_in tenant =
          ap (λ o. asked o (credentials (respelled req email) tenant)) known
          ∙ ap (issued codec auth.issuer c.at_token)
              (authenticate-respelled s req email tenant same full)
          ∙ ap (λ o. asked o (credentials req tenant)) (sym known)

      go :
          (o : Option Str)
          → (tried g (respelled req email) o).response ≡ (tried none req o).response
      go none = refl
      go (some tenant) =
          answer_response g none c (respelled req email) req
            (local_provider tenant (respelled req email))
          ∙ ap (λ v. (answer none c req v).response) (logs_in tenant)

  -- Under a key that the guard allows, a request that spells the email in another way gets the response
  -- that the request itself would get from a server without a guard.
  pub respelled-response :
      (g : Option LoginGuard) (tenants : TenantStore) (auth : Authenticator) (s : UserStore)
      (c : Readings) (req : LoginRequest) (email : Str)
      → to_lower (trim_space email) ≡ to_lower (trim_space req.email)
      → is_empty email ≡ is_empty req.email
      → get auth.providers (if is_empty req.provider then str "local" else req.provider)
        ≡ some (authenticate hash prf s)
      → (guard_allows g c.at_guard (guard_key (respelled req email))).1 ≡ true
      → (handle_login codec g tenants auth c (some (respelled req email))).response
        ≡ (handle_login codec none tenants auth c (some req)).response
  unfolding handle_login guard_allows
  respelled-response g tenants auth s c req email same full known allows =
      ap (λ b. (shown b).response) allows
      ∙ attempt-respelled (asked g).0 tenants auth s c req email same full known
    where
      asked : Option LoginGuard → Option LoginGuard × Bool
      asked k = guard_allows k c.at_guard (guard_key (respelled req email))

      shown : Bool → Handled
      shown b =
          if not b
          then record {
            guard = (asked g).0;
            notes = note (str "auth:lockout") (str "high") (respelled req email) email [] ∷ [];
            response = throttled;
          }
          else attempt codec (asked g).0 tenants auth c (respelled req email)
