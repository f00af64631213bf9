-- ===== src/Web/Login/Examples.antt =====
-- Concrete runs of the login handler of pkg/web/auth_api.go.
use mathlib.Core.Bool.{false≢true}
use neurosentry.Common.{
  [], arith, eq_iff, get, int_eq, nat_eq, none, pos, put, refl, second, some, str, str_beq, str_eq,
  to_lower, trim_left, trim_right, trim_space, ◌*◌, ◌+ℤ◌, ◌∷◌, ◌≡◌, ◌≢◌,
}
use neurosentry.Platform.Users.{
  assign, create, email_key, enrolled, index_keys, insert, named, new, owner, resolve_api_key,
}
use neurosentry.Platform.Users.Held.{run, step}
use neurosentry.Platform.LoginGuard.{LoginGuard}
use neurosentry.Platform.Rbac.{new_principal}
use neurosentry.Platform.Tenants.{TenantStore}
use neurosentry.Platform.Users.Provider.{authenticate, principal_of, with_key}
use neurosentry.Platform.Tokens.{claims_of, issue, mac, new_token_issuer, sign}
use neurosentry.Platform.Session.{issued, login, new_authenticator}
use neurosentry.Platform.Session.Sample.{
  bob_principal, bob_token, noon, plain, server, shared_key, store, toy, zero_sum,
}
use neurosentry.Web.Login.{
  LoginRequest, Readings, answer, attempt, credentials, guard_allows, guard_key, handle_login,
  login_tenant, throttled, welcome,
}
use neurosentry.Web.Login.Guarded.{respelled}
use neurosentry.Web.Login.Respelled.{handle_login-respelled}
use neurosentry.Platform.LoginGuard.Lockout.{fail_all}

abbrev tenants : TenantStore
tenants = record { by_id = []; by_slug = [] }

abbrev clock : Readings
clock = record { at_guard = noon; at_token = noon; at_failure = noon }

abbrev by_key : LoginRequest
by_key = record { tenant_slug = []; provider = []; email = []; password = []; api_key = shared_key }

welcome_run :
    (handle_login toy none tenants server clock (some by_key)).response
    ≡ welcome bob_token bob_principal
unfolding handle_login guard_allows attempt login_tenant credentials answer login issued
    new_authenticator get put str_beq new run step create authenticate to_lower trim_space trim_left
    trim_right email_key insert assign named enrolled index_keys resolve_api_key with_key owner
    principal_of issue sign mac claims_of new_token_issuer new_principal
welcome_run = refl

-- Ann's password login, whose key is locked.
abbrev by_email : LoginRequest
by_email = record {
  tenant_slug = [];
  provider = [];
  email = str "ann@x.io";
  password = str "guess";
  api_key = [];
}

-- A guard that locks after two failures, for a minute.
abbrev strict : LoginGuard
strict = record {
  records = [];
  max_failures = pos 2;
  window = pos (10 * second);
  lockout = pos (60 * second);
}

local_run : get server.providers (str "local") ≡ some (authenticate plain zero_sum store)
unfolding new_authenticator get put str_beq
local_run = refl

same_run : to_lower (trim_space (str "ANN@x.io")) ≡ to_lower (trim_space (str "ann@x.io"))
unfolding to_lower trim_space trim_left trim_right
same_run = refl

spelled_otherwise : str "ann@x.io" ≢ str "ANN@x.io"
unfolding str_beq
spelled_otherwise e = false≢true ((eq_iff (str "ann@x.io") (str "ANN@x.io")).1 e)

abbrev by_capitals : LoginRequest
by_capitals = respelled by_email (str "ANN@x.io")

handle_login-respelled_example :
    ((handle_login toy
        (some (fail_all strict (guard_key by_email) (noon ∷ noon ∷ [])))
        tenants
        server
        clock
        (some by_email)).response
      ≡ throttled)
    × ((handle_login toy
          (some (fail_all strict (guard_key by_email) (noon ∷ noon ∷ [])))
          tenants
          server
          clock
          (some by_capitals)).response
        ≡ (handle_login toy none tenants server clock (some by_email)).response)
unfolding get ◌+ℤ◌
handle_login-respelled_example =
    handle_login-respelled toy plain zero_sum strict 2 (10 * second) refl refl (omega arith) tenants
      server store clock by_email (str "ANN@x.io") noon (noon ∷ []) refl spelled_otherwise same_run
      refl local_run refl refl (omega arith) (omega arith) (omega arith, tt) (omega arith)
      (ground arith)
