-- ===== src/Platform/Session/Examples.antt =====
-- Concrete runs of pkg/platform: tenants, users, tokens and sessions.
use neurosentry.Common.{
  Str, Time, [], get, has, if◌then◌else◌, inl, inr, int_eq, nat_eq, none, not, pos, put, refl,
  retain, second, some, split_byte, str, str_beq, str_eq, to_lower, trim_left, trim_right,
  trim_space, true, ◌*◌, ◌+ℤ◌, ◌-ℤ◌, ◌↔◌, ◌≡◌, ◌≢◌,
}
use neurosentry.Platform.Rbac.{can, new_principal}
use neurosentry.Platform.Users.{
  User, assign, create, drop_keys, email_key, enrolled, index_keys, insert, named, new, owner,
  resolve_api_key, revoke_api_key, update,
}
use neurosentry.Platform.Users.Passwords.{
  check-set_password, check_password, pbkdf2_iterations, pbkdf2_key, pbkdf2_key_len, set_password,
}
use neurosentry.Platform.Users.Held.{run, step}
use neurosentry.Platform.Users.Provider.{authenticate, crash, granted, principal_of, with_key}
use neurosentry.Platform.Users.Login.{authenticate-run}
use neurosentry.Platform.Users.Revoked.{authenticate-revoked, revoked}
use neurosentry.Platform.Tokens.{
  claims_of, expired, issue, mac, new_token_issuer, sign, unix, verify, verify_claims,
  verify_header, verify_parts,
}
use neurosentry.Platform.Tokens.Signed.{Compact, is_over, verify-issue}
use neurosentry.Platform.Tokens.Genuine.{Genuine, verify_sound}
use neurosentry.Platform.Session.{
  admitted, forbidden, issued, login, new_authenticator, require, unauthorized,
}
use neurosentry.Platform.Session.Access.{require-login, with_token}
use neurosentry.Platform.Session.Sample.{
  ann, bob_claims, bob_principal, bob_token, by_shared_key, issuer, noon, people, plain, server,
  shared_key, signups, store, toy, toy_lawful, toy-Readable, zero_sum, zero_sum-sized,
}

shared_key_run : authenticate plain zero_sum store by_shared_key ≡ granted bob_principal
unfolding new run step create put str_beq authenticate get to_lower trim_space trim_left trim_right
    email_key insert assign named enrolled index_keys resolve_api_key with_key owner principal_of
shared_key_run = refl

authenticate-run_example :
    authenticate plain zero_sum (run (new people) signups) by_shared_key ≢ crash
authenticate-run_example = authenticate-run plain zero_sum people signups by_shared_key

after_revocation_run :
    authenticate plain zero_sum (revoked plain zero_sum store 0 shared_key) by_shared_key
    ≡ granted bob_principal
unfolding new run step create put str_beq authenticate get to_lower trim_space trim_left trim_right
    email_key insert assign named enrolled index_keys resolve_api_key with_key owner principal_of
    update drop_keys revoke_api_key retain
after_revocation_run = refl

known_run : has store.by_id (store.heap 0).id ≡ true
unfolding new run step create put str_beq get to_lower trim_space trim_left trim_right email_key
    insert assign named enrolled index_keys
known_run = refl

authenticate-revoked_example : bob_principal.user_id ≢ (store.heap 0).id
authenticate-revoked_example =
    authenticate-revoked plain zero_sum people signups 0 by_shared_key bob_principal known_run refl
      after_revocation_run

abbrev long_password : Str
long_password = str "correct horse"

abbrev with_password_set : User
with_password_set = record ann {
  password_salt = str "salt";
  password_hash = pbkdf2_key zero_sum long_password (str "salt") pbkdf2_iterations pbkdf2_key_len;
}

set_run : set_password zero_sum (str "salt") ann long_password ≡ some with_password_set
unfolding set_password
set_run = refl

check-set_password_example :
    (check_password zero_sum with_password_set long_password ≡ true)
    × ((check_password zero_sum with_password_set (str "wrong horse") ≡ true) ↔ (
        pbkdf2_key zero_sum (str "wrong horse") (str "salt") pbkdf2_iterations pbkdf2_key_len
        ≡ pbkdf2_key zero_sum long_password (str "salt") pbkdf2_iterations pbkdf2_key_len))
check-set_password_example =
    check-set_password zero_sum zero_sum-sized (str "salt") long_password (str "wrong horse") ann
      with_password_set set_run

abbrev later : Time
later = noon +ℤ pos (3600 * second)

verify-issue_example :
    (token : Str) × (issue toy issuer noon bob_principal ≡ some token)
    × Compact token
    × (verify toy issuer later token
        ≡ (if is_over bob_claims later then inl expired else inr bob_claims))
verify-issue_example = verify-issue toy toy_lawful issuer noon later bob_principal toy-Readable

verify_run : verify toy issuer later bob_token ≡ inr bob_claims
unfolding verify split_byte verify_parts verify_header verify_claims mac unix str_beq claims_of
    principal_of new_principal new_token_issuer ◌+ℤ◌ ◌-ℤ◌
verify_run = refl

verify_sound_example : Genuine toy issuer later bob_token bob_claims
verify_sound_example = verify_sound toy issuer later bob_token bob_claims verify_run

login_run : login toy server noon [] by_shared_key ≡ inr (bob_token, bob_principal)
unfolding login issued new_authenticator get put str_beq new run step create authenticate to_lower
    trim_space trim_left trim_right email_key insert assign named enrolled index_keys
    resolve_api_key with_key owner principal_of issue sign mac claims_of new_token_issuer
    new_principal
login_run = refl

local_run : get server.providers (str "local") ≡ some (authenticate plain zero_sum store)
unfolding new_authenticator get put str_beq
local_run = refl

require-login_example :
    require toy plain issuer none (str "events:view") later none (with_token bob_token) ≡ (
      if is_over bob_claims later
      then unauthorized
      else if not (can (some bob_principal) (str "events:view"))
      then forbidden
      else admitted bob_principal)
unfolding new_authenticator
require-login_example =
    require-login toy plain zero_sum toy_lawful server store noon later [] by_shared_key bob_token
      bob_principal none (str "events:view") local_run login_run toy-Readable
