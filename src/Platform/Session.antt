-- ===== src/Platform/Session.antt =====
-- pkg/platform/provider.go and middleware.go: the authenticator, which logs users in and hands out tokens,
-- and the checks that a request to the console passes.
pub mod Access
pub mod Sample
mod Examples
use neurosentry.Common.{
  Bool, Map, Option, Str, Time, [], false, get, has_prefix, if◌then◌else◌, inl, inr, int_eq,
  is_empty, nat_eq, none, not, put, some, str, str_eq, trim_prefix, trim_space, true, ◌==◌, ◌⊎◌,
}
use neurosentry.Platform.Rbac.{Permission, Principal, can}
use neurosentry.Platform.Users.{
  Resolved, UserStore, nil, resolve_api_key, unknown, user_active, user_at,
}
use neurosentry.Platform.Users.Provider.{
  Credentials, Outcome, Refusal, crash, granted, principal_of, refused,
}
use neurosentry.Platform.Tokens.{Codec, TokenIssuer, issue, principal_from_claims, verify}

-- An identity provider is its Authenticate.
abbrev pub IdentityProvider : Type 0
IdentityProvider = Credentials → Outcome

pub record Authenticator : Type 0 where
  pub providers : Map Str IdentityProvider
  pub issuer : TokenIssuer

-- NewAuthenticator, with the name of the default provider; `none` is a nil provider.
unfoldable pub new_authenticator : TokenIssuer → Option (Str × IdentityProvider) → Authenticator
new_authenticator issuer none = record { providers = []; issuer = issuer }
new_authenticator issuer (some (name, p)) = record { providers = put [] name p; issuer = issuer }

-- Register
register : Authenticator → Str → IdentityProvider → Authenticator
register a name p = record a { providers = put a.providers name p }

pub data LoginFailure : Type 0 where
  unknown_provider not_issued provider_crash : LoginFailure
  rejected : Refusal → LoginFailure

-- PermManageSystem
abbrev pub perm_manage_system : Permission
perm_manage_system = str "system:manage"

-- TenantScoped; a nil principal is `none`.
tenant_scoped : Str → Option Principal → Bool
tenant_scoped tenant none = false
tenant_scoped tenant (some p) =
    if can (some p) perm_manage_system then true else p.tenant_id == tenant

-- The headers of a request that resolve reads.
pub record Request : Type 0 where
  pub authorization : Str
  pub x_api_key : Str

-- What the API key of a request gives: a principal, nothing, or a crash on a nil user.
pub data Resolution : Type 0 where
  nobody nil_user : Resolution
  somebody : Principal → Resolution

-- What Require does: an error, or the handler with the principal in its context.
pub data Admission : Type 0 where
  unauthorized forbidden failed : Admission
  admitted : Principal → Admission

-- The second half of resolve.
resolved_key : UserStore → Resolved → Resolution
unfolding principal_of
resolved_key s unknown = nobody
resolved_key s nil = nil_user
resolved_key s (user_at r) =
    if (s.heap r).status == user_active then somebody (principal_of (s.heap r)) else nobody

-- The part of Require that has a principal.
pub checked : Permission → Principal → Admission
checked perm p = if not (can (some p) perm) then forbidden else admitted p

-- The part of Require that has resolved the request.
pub require_resolved : Permission → Resolution → Admission
unfolding checked
require_resolved perm nobody = unauthorized
require_resolved perm nil_user = failed
require_resolved perm (somebody p) = checked perm p

module _ (codec : Codec) where
  -- The part of Login that has the provider's answer.
  unfoldable pub issued : TokenIssuer → Time → Outcome → LoginFailure ⊎ (Str × Principal)
  issued ti now (refused f) = inl (rejected f)
  issued ti now crash = inl provider_crash
  issued ti now (granted p) = elim (issue codec ti now p) [
    | none ↦ inl not_issued
    | some token ↦ inr (token, p)
  ]

  -- Login
  unfoldable pub login : Authenticator → Time → Str → Credentials → LoginFailure ⊎ (Str × Principal)
  unfolding issued
  login a now provider creds =
      elim (get a.providers (if is_empty provider then str "local" else provider)) [
        | none ↦ inl unknown_provider
        | some p ↦ issued a.issuer now (p creds)
      ]

  -- The token of a request, if it is accepted.
  pub bearer : TokenIssuer → Time → Str → Option Principal
  bearer ti now auth =
      if has_prefix auth (str "Bearer ")
      then (elim (verify codec ti now (trim_space (trim_prefix auth (str "Bearer ")))) [
        | inl e ↦ none
        | inr c ↦ some (principal_from_claims c)
      ])
      else none

  module _ (hash : Str → Str) where
    -- The API key of a request; `none` is a middleware without users.
    pub resolve_key : Option UserStore → Str → Resolution
    unfolding resolved_key
    resolve_key users key = elim users [
      | none ↦ nobody
      | some s ↦ if is_empty key then nobody else resolved_key s (resolve_api_key hash s key)
    ]

    -- resolve
    pub resolve : TokenIssuer → Option UserStore → Time → Request → Resolution
    unfolding resolve_key bearer
    resolve ti users now r = elim (bearer ti now r.authorization) [
      | none ↦ resolve_key users r.x_api_key
      | some p ↦ somebody p
    ]

    -- Require, with the principal that the context has already.
    pub require :
        TokenIssuer → Option UserStore → Permission → Time → Option Principal → Request → Admission
    unfolding require_resolved resolve checked
    require ti users perm now (some p) r = checked perm p
    require ti users perm now none r = require_resolved perm (resolve ti users now r)
