-- ===== src/Platform/Users/Provider.antt =====
-- pkg/platform/provider.go: LocalProvider, which logs a user in by an API key or by a password.
use neurosentry.Common.{
  Str, if◌then◌else◌, int_eq, is_empty, nat_eq, none, not, some, str_eq, ◌==◌, ◌||◌,
}
use neurosentry.Platform.Rbac.{Principal, new_principal}
use neurosentry.Platform.Users.{
  Resolved, User, UserStore, get_by_email, nil, resolve_api_key, unknown, user_active, user_at,
}
use neurosentry.Platform.Users.Passwords.{check_password}

pub record Credentials : Type 0 where
  pub tenant_id : Str
  pub email : Str
  pub username : Str
  pub password : Str
  pub api_key : Str
  pub id_token : Str

pub data Refusal : Type 0 where
  bad_api_key disabled missing bad_credentials : Refusal

-- What Authenticate does: it refuses, grants, or crashes on a nil user.
pub data Outcome : Type 0 where
  refused : Refusal → Outcome
  granted : Principal → Outcome
  crash : Outcome

-- principalOf
unfoldable pub principal_of : User → Principal
principal_of u = new_principal u.id u.tenant_id u.email u.roles

-- The part of Authenticate that has found the owner of an API key.
unfoldable pub with_key : UserStore → Resolved → Outcome
unfolding principal_of
with_key s unknown = refused bad_api_key
with_key s nil = crash
with_key s (user_at r) =
    if not ((s.heap r).status == user_active)
    then refused disabled
    else granted (principal_of (s.heap r))

module _ (hash : Str → Str) (prf : Str → Str → Str) where
  -- The part of Authenticate that has found a user by email.
  unfoldable pub with_password : User → Str → Outcome
  unfolding check_password principal_of
  with_password u password =
      if not (u.status == user_active)
      then refused disabled
      else if not (check_password prf u password)
      then refused bad_credentials
      else granted (principal_of u)

  -- Authenticate
  unfoldable pub authenticate : UserStore → Credentials → Outcome
  unfolding with_key with_password resolve_api_key get_by_email
  authenticate s creds =
      if not (is_empty creds.api_key)
      then with_key s (resolve_api_key hash s creds.api_key)
      else if is_empty creds.email || is_empty creds.password
      then refused missing
      else elim (get_by_email s creds.tenant_id creds.email) [
        | none ↦ refused bad_credentials
        | some r ↦ with_password (s.heap r) creds.password
      ]
