-- ===== src/Web/Login.antt =====
-- pkg/web/auth_api.go: the login handler, which joins the login guard, the tenants and the authenticator.
-- Its three readings of the clock are arguments; the audit notes that it records are returned.
pub mod Guarded
pub mod Respelled
mod Examples
use neurosentry.Common.{
  Bool, List, Option, Str, Time, [], if◌then◌else◌, inl, inr, int_eq, is_empty, nat_eq, none, not,
  some, str, str_eq, true, ◌&&◌, ◌++◌, ◌∷◌, ◌⊎◌,
}
use neurosentry.Platform.LoginGuard.{LoginGuard, allowed, record_failure, record_success}
use neurosentry.Platform.Rbac.{Principal}
use neurosentry.Platform.Tenants.{TenantStore, get_by_slug}
use neurosentry.Platform.Users.Provider.{Credentials}
use neurosentry.Platform.Tokens.{Codec}
use neurosentry.Platform.Session.{
  Authenticator, LoginFailure, login, not_issued, provider_crash, rejected, unknown_provider,
}

pub record LoginRequest : Type 0 where
  pub tenant_slug : Str
  pub provider : Str
  pub email : Str
  pub password : Str
  pub api_key : Str

-- The clock as Allowed, Issue and RecordFailure read it.
pub record Readings : Type 0 where
  pub at_guard : Time
  pub at_token : Time
  pub at_failure : Time

-- An entry that recordAdminAudit is given.
pub record AdminNote : Type 0 where
  pub action : Str
  pub severity : Str
  pub actor : Str
  pub target : Str
  pub tenant : Str

-- The response: 400, 429, 401, 200 with the token and the principal, or a panic.
pub data Response : Type 0 where
  bad_request throttled invalid panicked : Response
  welcome : Str → Principal → Response

-- What the handler leaves: the guard, the notes and the response. A server may have no guard.
pub record Handled : Type 0 where
  pub guard : Option LoginGuard
  pub notes : List AdminNote
  pub response : Response

-- The key that a request counts under.
pub guard_key : LoginRequest → Str
guard_key req =
    if not (is_empty req.api_key) then str "apikey" else req.tenant_slug ++ str ":" ++ req.email

-- s.loginGuard == nil || s.loginGuard.Allowed(key)
pub guard_allows : Option LoginGuard → Time → Str → Option LoginGuard × Bool
guard_allows none now key = (none, true)
guard_allows (some g) now key = (some (allowed g now key).0, (allowed g now key).1)

-- if s.loginGuard != nil { s.loginGuard.RecordFailure(key) }
pub guard_failure : Option LoginGuard → Time → Str → Option LoginGuard
guard_failure none now key = none
guard_failure (some g) now key = some (record_failure g now key)

-- if s.loginGuard != nil { s.loginGuard.RecordSuccess(key) }
pub guard_success : Option LoginGuard → Str → Option LoginGuard
guard_success none key = none
guard_success (some g) key = some (record_success g key)

-- The tenant of a password login, or the empty one; `none` is a slug that no tenant has.
pub login_tenant : TenantStore → LoginRequest → Option Str
login_tenant tenants req =
    if is_empty req.api_key && not (is_empty req.tenant_slug)
    then (elim (get_by_slug tenants req.tenant_slug) [ none ↦ none | some t ↦ some t.id ])
    else some []

pub credentials : LoginRequest → Str → Credentials
credentials req tenant = record {
  tenant_id = tenant;
  email = req.email;
  username = [];
  password = req.password;
  api_key = req.api_key;
  id_token = [];
}

abbrev pub note : Str → Str → LoginRequest → Str → Str → AdminNote
note action severity req actor target = record {
  action = action;
  severity = severity;
  actor = actor;
  target = target;
  tenant = req.tenant_slug;
}

-- The last part of the handler, with what Login returns.
pub answer :
    Option LoginGuard → Readings → LoginRequest → LoginFailure ⊎ (Str × Principal) → Handled
unfolding guard_key guard_failure guard_success
answer g c req (inl provider_crash) = record { guard = g; notes = []; response = panicked }
answer g c req (inl unknown_provider) = record {
  guard = guard_failure g c.at_failure (guard_key req);
  notes = note (str "auth:login_failed") (str "medium") req req.email [] ∷ [];
  response = invalid;
}
answer g c req (inl not_issued) = record {
  guard = guard_failure g c.at_failure (guard_key req);
  notes = note (str "auth:login_failed") (str "medium") req req.email [] ∷ [];
  response = invalid;
}
answer g c req (inl (rejected f)) = record {
  guard = guard_failure g c.at_failure (guard_key req);
  notes = note (str "auth:login_failed") (str "medium") req req.email [] ∷ [];
  response = invalid;
}
answer g c req (inr (token, p)) = record {
  guard = guard_success g (guard_key req);
  notes = note (str "auth:login") (str "info") req p.email p.user_id ∷ [];
  response = welcome token p;
}

module _ (codec : Codec) where
  -- The part of the handler that the guard lets through.
  pub attempt : Option LoginGuard → TenantStore → Authenticator → Readings → LoginRequest → Handled
  unfolding answer login_tenant credentials guard_failure guard_key
  attempt g tenants auth c req = elim (login_tenant tenants req) [
    | none ↦ record {
      guard = guard_failure g c.at_failure (guard_key req);
      notes = [];
      response = invalid;
    }
    | some tenant ↦
        answer g c req (login codec auth c.at_token req.provider (credentials req tenant))
  ]

  -- handleLogin, for what is decoded from the body, or `none`.
  pub handle_login :
      Option LoginGuard → TenantStore → Authenticator → Readings → Option LoginRequest → Handled
  unfolding guard_key guard_allows attempt
  handle_login g tenants auth c none = record { guard = g; notes = []; response = bad_request }
  handle_login g tenants auth c (some req) =
      let asked = guard_allows g c.at_guard (guard_key req) in
      if not asked.1
      then record {
        guard = asked.0;
        notes = note (str "auth:lockout") (str "high") req req.email [] ∷ [];
        response = throttled;
      }
      else attempt asked.0 tenants auth c req
