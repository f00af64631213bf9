-- ===== src/Platform/Rbac.antt =====
-- pkg/platform/rbac.go: roles, permissions and principals. Permissions and roles are strings, and an
-- unknown role reads as an empty bundle.
pub mod Grants
use neurosentry.Common.{
  Bool, List, Map, Option, Str, [], any, false, get, has, if◌then◌else◌, int_eq, nat_eq, none, put,
  some, str, str_beq, str_eq, true, ◌*◌, ◌==◌, ◌∷◌,
}

abbrev pub Permission : Type 0
Permission = Str

abbrev pub Role : Type 0
Role = Str

-- PermAll
abbrev pub perm_all : Permission
perm_all = str "*"

abbrev pub viewer_permissions : List Permission
viewer_permissions = str "events:view" ∷ str "audit:view" ∷ str "inventory:view" ∷ []

abbrev pub analyst_permissions : List Permission
analyst_permissions =
    str "events:view"
    ∷ str "audit:view"
    ∷ str "audit:verify"
    ∷ str "audit:export"
    ∷ str "inventory:view"
    ∷ str "alerts:manage"
    ∷ []

abbrev pub admin_permissions : List Permission
admin_permissions =
    str "events:view"
    ∷ str "audit:view"
    ∷ str "audit:verify"
    ∷ str "audit:export"
    ∷ str "inventory:view"
    ∷ str "policy:manage"
    ∷ str "alerts:manage"
    ∷ str "users:manage"
    ∷ []

-- rolePermissions
role_table : Map Role (List Permission)
role_table =
    (str "owner", perm_all ∷ [])
    ∷ (str "admin", admin_permissions)
    ∷ (str "analyst", analyst_permissions)
    ∷ (str "viewer", viewer_permissions)
    ∷ []

abbrev pub bundle : Option (List Permission) → List Permission
bundle none = []
bundle (some ps) = ps

-- rolePermissions[r]
pub role_permissions : Role → List Permission
unfolding role_table get str_beq
role_permissions r = bundle (get role_table r)

-- KnownRole
pub known_role : Role → Bool
unfolding role_table get str_beq
known_role r = has role_table r

-- A map to struct{} is a set.
abbrev pub PermSet : Type 0
PermSet = Map Permission (Unit {0})

-- The inner loop of PermissionsForRoles; `none` is its early return.
pub add_bundle : PermSet → List Permission → Option PermSet
add_bundle perms [] = some perms
add_bundle perms (p ∷ ps) =
    let rest = add_bundle (put perms p tt) ps in if p == perm_all then none else rest

pub add_roles : PermSet → List Role → Option PermSet
unfolding add_bundle
add_roles perms [] = some perms
add_roles perms (r ∷ rs) = elim (add_bundle perms (role_permissions r)) [
  | none ↦ none
  | some more ↦ add_roles more rs
]

abbrev pub or_wildcard : Option PermSet → PermSet
or_wildcard none = (perm_all, tt) ∷ []
or_wildcard (some perms) = perms

-- PermissionsForRoles
pub permissions_for_roles : List Role → PermSet
unfolding add_roles
permissions_for_roles rs = or_wildcard (add_roles [] rs)

pub record Principal : Type 0 where
  pub user_id : Str
  pub tenant_id : Str
  pub email : Str
  pub roles : List Role
  pub perms : PermSet

-- NewPrincipal
unfoldable pub new_principal : Str → Str → Str → List Role → Principal
new_principal user tenant email roles = record {
  user_id = user;
  tenant_id = tenant;
  email = email;
  roles = roles;
  perms = permissions_for_roles roles;
}

-- Can; a nil principal is `none`.
pub can : Option Principal → Permission → Bool
can none perm = false
can (some p) perm = if has p.perms perm_all then true else has p.perms perm

-- HasRole
has_role : Option Principal → Role → Bool
has_role none role = false
has_role (some p) role = any (λ r. r == role) p.roles
