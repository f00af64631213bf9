-- ===== src/Platform/Rbac/Grants.antt =====
-- pkg/platform/rbac.go: a principal can do what its roles' bundles say.
use Prim.Native.String.{String}
use neurosentry.Common.{
  Bool, Bool-cases, List, Option, Str, [], any, arith, false, get, has, has-put, if_cases,
  if◌then◌else◌, inl, inr, int_eq, nat_eq, none, not, put, refl, some, str, str_beq, str_eq, sym,
  true, ◌==◌, ◌||◌, ◌∙◌, ◌∷◌, ◌≡◌,
}
use neurosentry.Platform.Rbac.{
  PermSet, Permission, Principal, Role, add_bundle, add_roles, can, new_principal, or_wildcard,
  perm_all, permissions_for_roles, role_permissions,
}

abbrev pub lists : Permission → List Permission → Bool
lists p ps = any (λ q. q == p) ps

-- The specification: some role's bundle lists the permission, or the wildcard.
pub grants : List Role → Permission → Bool
grants [] p = false
grants (r ∷ rs) p =
    lists perm_all (role_permissions r) || lists p (role_permissions r) || grants rs p

abbrev allows : Option PermSet → Permission → Bool
allows o p = if has (or_wildcard o) perm_all then true else has (or_wildcard o) p

-- A set that is still being collected never holds the wildcard.
abbrev IsClean : Option PermSet → Type 0
IsClean none = Unit
IsClean (some s) = has s perm_all ≡ false

wildcard : (p : Permission) → allows none p ≡ true
unfolding get str_beq
wildcard p = refl

add_bundle-IsClean :
    (s : PermSet) (ps : List Permission) → has s perm_all ≡ false → IsClean (add_bundle s ps)
unfolding add_bundle
add_bundle-IsClean s [] h = h
add_bundle-IsClean s (q ∷ ps) h =
    if_cases IsClean (q == perm_all) _ _ (λ _. tt)
      (λ ne. add_bundle-IsClean (put s q tt) ps (has-put s q perm_all tt ∙ rw (ne, h)))

add_bundle-allows :
    (s : PermSet) (ps : List Permission) (p : Permission)
    → has s perm_all ≡ false
    → allows (add_bundle s ps) p ≡ lists perm_all ps || lists p ps || has s p
unfolding add_bundle
add_bundle-allows s [] p h = rw h
add_bundle-allows s (q ∷ ps) p h = elim (Bool-cases (q == perm_all)) [
  | inl e ↦ rw e (unfold get str_beq in refl)
  | inr ne ↦ rw ne (
      add_bundle-allows (put s q tt) ps p (has-put s q perm_all tt ∙ rw (ne, h))
      ∙ ground (arith, has-put s q p tt))
]

add_roles-allows :
    (s : PermSet) (rs : List Role) (p : Permission)
    → has s perm_all ≡ false
    → allows (add_roles s rs) p ≡ grants rs p || has s p
unfolding add_roles grants
add_roles-allows s [] p h = rw h
add_roles-allows s (r ∷ rs) p h =
    go (add_bundle s (role_permissions r)) refl (λ more clean. add_roles-allows more rs p clean)
  where
    go :
        (o : Option PermSet)
        → add_bundle s (role_permissions r) ≡ o
        → ((more : PermSet)
            → has more perm_all ≡ false
            → allows (add_roles more rs) p ≡ grants rs p || has more p)
        → allows (elim o [ none ↦ none | some more ↦ add_roles more rs ]) p
          ≡ (lists perm_all (role_permissions r) || lists p (role_permissions r) || grants rs p)
            || has s p
    go none e ih =
        ground (arith, wildcard p, rw e at (add_bundle-allows s (role_permissions r) p h))
    go (some more) e ih =
        let clean : has more perm_all ≡ false =
          rw e at (add_bundle-IsClean s (role_permissions r) h) in
        ground (
          arith,
          clean,
          ih more clean,
          rw (e, clean) at (add_bundle-allows s (role_permissions r) p h),
        )

or_false : (b : Bool) → b || false ≡ b
or_false true = refl
or_false false = refl

-- The bundles of the built-in roles, of their names alone.
viewer_le :
    (p : Permission) → grants (str "viewer" ∷ []) p ≡ true → grants (str "analyst" ∷ []) p ≡ true
unfolding grants role_permissions
viewer_le p h =
    or_widen (has_name "events:view") (has_name "audit:view") (has_name "inventory:view")
      (has_name "audit:verify") (has_name "audit:export") (has_name "alerts:manage") h
  where
    has_name : String → Bool
    has_name s = str_beq (str s) p

    or_widen :
        (a b c d e f : Bool)
        → (a || (b || (c || false))) || false ≡ true
        → (a || (b || (d || (e || (c || (f || false)))))) || false ≡ true
    or_widen a b c d e f h = ground arith

analyst_le :
    (p : Permission) → grants (str "analyst" ∷ []) p ≡ true → grants (str "admin" ∷ []) p ≡ true
unfolding grants role_permissions
analyst_le p h =
    or_widen (has_name "events:view") (has_name "audit:view") (has_name "audit:verify")
      (has_name "audit:export") (has_name "inventory:view") (has_name "alerts:manage")
      (has_name "policy:manage") (has_name "users:manage") h
  where
    has_name : String → Bool
    has_name s = str_beq (str s) p

    or_widen :
        (a b d e c f g k : Bool)
        → (a || (b || (d || (e || (c || (f || false)))))) || false ≡ true
        → (a || (b || (d || (e || (c || (g || (f || (k || false)))))))) || false ≡ true
    or_widen a b d e c f g k h = ground arith

owner_all : (p : Permission) → grants (str "owner" ∷ []) p ≡ true
unfolding grants role_permissions
owner_all p = refl

-- A principal built from roles can do exactly what the bundle of one of its roles lists, or anything if
-- one of them holds the wildcard.
pub can-grants :
    (user tenant email : Str) (roles : List Role) (p : Permission)
    → can (some (new_principal user tenant email roles)) p ≡ grants roles p
unfolding can new_principal permissions_for_roles
can-grants user tenant email roles p =
    add_roles-allows [] roles p (unfold get in refl) ∙ (unfold get in or_false (grants roles p))

implied : (a b : Bool) → (a ≡ true → b ≡ true) → (not a || b) ≡ true
implied true b h = h refl
implied false b h = refl

module _ (user tenant email : Str) (p : Permission) where
  abbrev holder : Role → Option Principal
  holder r = some (new_principal user tenant email (r ∷ []))

  -- The built-in roles are ordered: what a viewer can do an analyst can, what an analyst can an admin
  -- can, and an owner can do anything.
  pub role_hierarchy :
      ((not (can (holder (str "viewer")) p) || can (holder (str "analyst")) p) ≡ true)
      × ((not (can (holder (str "analyst")) p) || can (holder (str "admin")) p) ≡ true)
      × (can (holder (str "owner")) p ≡ true)
  role_hierarchy = (
    implied _ _ (λ h.
        can-grants user tenant email _ p
        ∙ viewer_le p (sym (can-grants user tenant email _ p) ∙ h)),
    implied _ _ (λ h.
        can-grants user tenant email _ p
        ∙ analyst_le p (sym (can-grants user tenant email _ p) ∙ h)),
    can-grants user tenant email _ p ∙ owner_all p,
  )
