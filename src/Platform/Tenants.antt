-- ===== src/Platform/Tenants.antt =====
-- pkg/platform/tenant.go: the tenants, with an index by identifier and one by slug. Both hold a pointer to
-- the same copy, which nobody changes, so the pointer is the value. A method that fills fields of the
-- tenant that it is given returns it too; the random identifier and the clock are arguments.
pub mod Directory
pub mod Indexed
pub mod Refinement
mod Examples
use neurosentry.Common.{
  List, Map, Option, Str, Time, [], delete, get, has, if◌then◌else◌, int_eq, is_empty, is_zero, map,
  nat_eq, none, put, some, str, str_eq, to_lower, trim_space, ◌++◌, ◌||◌,
}

pub record Tenant : Type 0 where
  pub id : Str
  pub slug : Str
  pub name : Str
  pub plan : Str
  pub status : Str
  pub created_at : Time

abbrev pub tenant_active : Str
tenant_active = str "active"

abbrev pub plan_free : Str
plan_free = str "free"

-- The errors: a field that is required, ErrNotFound and ErrConflict.
pub data StoreError : Type 0 where
  required not_found conflict : StoreError

pub record TenantStore : Type 0 where
  pub by_id : Map Str Tenant
  pub by_slug : Map Str Tenant

-- NewMemTenantStore
abbrev pub new : TenantStore
new = record { by_id = []; by_slug = [] }

-- normalizeSlug
pub normalize_slug : Str → Str
normalize_slug s = to_lower (trim_space s)

abbrev pub or_default : Str → Str → Str
or_default s d = if is_empty s then d else s

-- newID, with the hexadecimal form of the random bytes.
unfoldable pub new_id : Str → Str → Str
new_id prefix random = prefix ++ str "_" ++ random

-- The identifier of the tenant, or the new one.
pub identified : Str → Tenant → Tenant
unfolding new_id
identified random t = record t { id = or_default t.id (new_id (str "ten") random) }

-- What Create stores, and leaves in the caller's tenant.
pub completed : Time → Tenant → Tenant
completed now t = record t {
  slug = normalize_slug t.slug;
  status = or_default t.status tenant_active;
  plan = or_default t.plan plan_free;
  created_at = if is_zero t.created_at then now else t.created_at;
}

-- Create
pub create : TenantStore → Str → Time → Tenant → TenantStore × Tenant × Option StoreError
unfolding identified completed
create s random now t =
    if is_empty t.slug || is_empty t.name
    then (s, t, some required)
    else if has s.by_slug (normalize_slug t.slug)
    then (s, t, some conflict)
    else if has s.by_id (identified random t).id
    then (s, identified random t, some conflict)
    else (
      record {
        by_id = put s.by_id (identified random t).id (completed now (identified random t));
        by_slug = put s.by_slug (normalize_slug t.slug) (completed now (identified random t));
      },
      completed now (identified random t),
      none,
    )

-- Get: `none` is ErrNotFound.
pub get_tenant : TenantStore → Str → Option Tenant
get_tenant s id = get s.by_id id

-- GetBySlug
pub get_by_slug : TenantStore → Str → Option Tenant
get_by_slug s slug = get s.by_slug (normalize_slug slug)

-- List, in the order that the run time picks.
pub list : TenantStore → List Tenant
list s = map (λ x. x.1) s.by_id

-- What Update stores over `old`.
pub updated : Tenant → Tenant → Tenant
updated old t = record t { slug = old.slug; created_at = old.created_at }

-- Update
pub update : TenantStore → Tenant → TenantStore × Tenant × Option StoreError
unfolding updated
update s t = elim (get s.by_id t.id) [
  | none ↦ (s, t, some not_found)
  | some old ↦ (
    record {
      by_id = put s.by_id t.id (updated old t);
      by_slug = put s.by_slug old.slug (updated old t);
    },
    updated old t,
    none,
  )
]

-- Delete
pub remove : TenantStore → Str → TenantStore × Option StoreError
remove s id = elim (get s.by_id id) [
  | none ↦ (s, some not_found)
  | some t ↦ (record { by_id = delete s.by_id id; by_slug = delete s.by_slug t.slug }, none)
]
