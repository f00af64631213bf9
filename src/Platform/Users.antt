-- ===== src/Platform/Users.antt =====
-- pkg/platform/identity.go: users, their passwords and API keys, and the store of users. The store and its
-- callers share pointers to users, so a user lives in a heap under a reference. SHA-256, HMAC, the random
-- numbers and the clock are arguments.
pub mod Provider
pub mod Passwords
pub mod Held
pub mod Login
pub mod Revoked
use neurosentry.Common.{
  List, Map, Option, Str, Time, [], delete, get, has, if◌then◌else◌, int_eq, is_empty, is_zero,
  keep, map, nat_eq, none, not, put, retain, some, str, str_eq, to_lower, trim_space, ℕ, ◌++◌, ◌==◌,
  ◌||◌, ◌∷◌,
}
use neurosentry.Platform.Rbac.{Role}
use neurosentry.Platform.Tenants.{StoreError, conflict, new_id, not_found, or_default, required}

abbrev pub UserStatus : Type 0
UserStatus = Str

abbrev pub user_active : UserStatus
user_active = str "active"

abbrev pub user_disabled : UserStatus
user_disabled = str "disabled"

-- The set of hashed API keys is a list.
pub record User : Type 0 where
  pub id : Str
  pub tenant_id : Str
  pub email : Str
  pub username : Str
  pub roles : List Role
  pub status : UserStatus
  pub created_at : Time
  pub password_hash : Str
  pub password_salt : Str
  pub api_key_hashes : List Str

abbrev pub Ref : Type 0
Ref = ℕ

-- The heap of users, and the store: `by_id` and `by_email` hold references, `by_api_key` identifiers.
pub record UserStore : Type 0 where
  pub heap : Ref → User
  pub by_id : Map Str Ref
  pub by_email : Map Str Ref
  pub by_api_key : Map Str Str

-- The user that a pointer points to is changed.
unfoldable pub assign : UserStore → Ref → User → UserStore
assign s r u = record s { heap = λ q. if q == r then u else s.heap q }

-- NewMemUserStore, in a heap.
unfoldable pub new : (Ref → User) → UserStore
new heap = record { heap = heap; by_id = []; by_email = []; by_api_key = [] }

-- emailKey: the separator is the byte 0.
unfoldable pub email_key : Str → Str → Str
email_key tenant email = tenant ++ 0 ∷ to_lower (trim_space email)

-- for h := range hashes { byAPIKey[h] = id }
unfoldable pub index_keys : Map Str Str → List Str → Str → Map Str Str
index_keys m [] id = m
index_keys m (h ∷ hs) id = index_keys (put m h id) hs id

-- for h, uid := range byAPIKey { if uid == id { delete(byAPIKey, h) } }
unfoldable pub drop_keys : Map Str Str → Str → Map Str Str
drop_keys m id = retain (λ h uid. not (uid == id)) m

-- What Create leaves in a user that has an identifier.
unfoldable pub enrolled : Time → User → User
enrolled now u = record u {
  status = or_default u.status user_active;
  created_at = if is_zero u.created_at then now else u.created_at;
}

-- The identifier of the user, or the new one.
unfoldable pub named : Str → User → User
unfolding new_id
named random u = record u { id = or_default u.id (new_id (str "usr") random) }

-- The part of Create that stores.
unfoldable pub insert : UserStore → Time → Ref → User → UserStore
unfolding assign email_key index_keys enrolled
insert s now r u = record (assign s r (enrolled now u)) {
  by_id = put s.by_id u.id r;
  by_email = put s.by_email (email_key u.tenant_id u.email) r;
  by_api_key = index_keys s.by_api_key u.api_key_hashes u.id;
}

-- Create, for the user at `r`.
unfoldable pub create : UserStore → Str → Time → Ref → UserStore × Option StoreError
unfolding assign email_key named insert
create s random now r =
    let u = s.heap r in
    if is_empty u.tenant_id || is_empty u.email
    then (s, some required)
    else if has s.by_email (email_key u.tenant_id u.email)
    then (s, some conflict)
    else if has s.by_id (named random u).id
    then (assign s r (named random u), some conflict)
    else (insert s now r (named random u), none)

-- Get: `none` is ErrNotFound.
get_user : UserStore → Str → Option Ref
get_user s id = get s.by_id id

-- GetByEmail
unfoldable pub get_by_email : UserStore → Str → Str → Option Ref
unfolding email_key
get_by_email s tenant email = get s.by_email (email_key tenant email)

-- ListByTenant, in the order that the run time picks.
list_by_tenant : UserStore → Str → List Ref
list_by_tenant s tenant = keep (λ r. (s.heap r).tenant_id == tenant) (map (λ x. x.1) s.by_id)

-- Update, for the user at `r`.
unfoldable pub update : UserStore → Ref → UserStore × Option StoreError
unfolding email_key index_keys drop_keys
update s r =
    let u = s.heap r in
    if not (has s.by_id u.id) then (s, some not_found) else (
      record s {
        by_id = put s.by_id u.id r;
        by_email = put s.by_email (email_key u.tenant_id u.email) r;
        by_api_key = index_keys (drop_keys s.by_api_key u.id) u.api_key_hashes u.id;
      },
      none,
    )

-- Delete
pub remove : UserStore → Str → UserStore × Option StoreError
unfolding email_key drop_keys
remove s id = elim (get s.by_id id) [
  | none ↦ (s, some not_found)
  | some r ↦ (
    record s {
      by_id = delete s.by_id id;
      by_email = delete s.by_email (email_key (s.heap r).tenant_id (s.heap r).email);
      by_api_key = drop_keys s.by_api_key id;
    },
    none,
  )
]

-- What ResolveAPIKey returns: ErrNotFound, or a pointer, which is nil if `byID` has no such user.
pub data Resolved : Type 0 where
  unknown nil : Resolved
  user_at : Ref → Resolved

unfoldable pub owner : UserStore → Str → Resolved
owner s uid = elim (get s.by_id uid) [ none ↦ nil | some r ↦ user_at r ]

-- ResolveAPIKey, with hashAPIKey as an argument.
unfoldable pub resolve_api_key : (Str → Str) → UserStore → Str → Resolved
unfolding owner
resolve_api_key hash s raw = elim (get s.by_api_key (hash raw)) [
  | none ↦ unknown
  | some uid ↦ owner s uid
]

-- GenerateAPIKey, with the hexadecimal form of the random bytes.
generate_api_key : (Str → Str) → Str → User → User × Str
generate_api_key hash random u =
    let raw = str "nsk_" ++ random in
    (record u { api_key_hashes = hash raw ∷ u.api_key_hashes }, raw)

-- RevokeAPIKey
unfoldable pub revoke_api_key : (Str → Str) → Str → User → User
revoke_api_key hash raw u = record u {
  api_key_hashes = keep (λ h. not (h == hash raw)) u.api_key_hashes;
}
