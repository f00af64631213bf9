-- ===== src/Platform/Tenants/Indexed.antt =====
-- pkg/platform/tenant.go: the index by slug is what a scan of the tenants finds.
use neurosentry.Common.{
  IsUnique, Map, Option, Str, [], ap, arith, delete, delete-IsUnique, eq_iff, eq_refl, false,
  found-delete, found-put, get, get-delete-other, get-put-other, get-put-same, if_cases, inl, inr,
  int_eq, is_some, nat_eq, none, put, put-IsUnique, refl, some, str_eq, subst, sym, true, ◌==◌, ◌∙◌,
  ◌∷◌, ◌≡◌,
}
use neurosentry.Platform.Tenants.{Tenant, TenantStore, new}
use neurosentry.Platform.Tenants.Directory.{scan}

-- Each tenant is stored under its identifier, and the index by slug has the tenants under their slugs.
pub record Indexed (s : TenantStore) : Type 0 where
  pub unique : IsUnique s.by_id
  pub keyed : (k : Str) (t : Tenant) → get s.by_id k ≡ some t → t.id ≡ k
  pub slugged :
      (k : Str) (t : Tenant) → get s.by_slug k ≡ some t → (get s.by_id t.id ≡ some t) × (t.slug ≡ k)
  pub reached : (t : Tenant) → get s.by_id t.id ≡ some t → get s.by_slug t.slug ≡ some t

abbrev pub Holds : Map Str Tenant → Tenant → Type 0
Holds m t = (k : Str) × (get m k ≡ some t)

-- What a scan finds is in the table, and has the slug.
scan-Holds :
    (m : Map Str Tenant) (slug : Str) (t : Tenant)
    → IsUnique m
    → scan m slug ≡ some t
    → Holds m t × (t.slug ≡ slug)
unfolding scan get
scan-Holds [] slug t u h = cc
scan-Holds ((k, v) ∷ m) slug t u h =
    if_cases (λ (o : Option Tenant). o ≡ some t → Holds ((k, v) ∷ m) t × (t.slug ≡ slug))
      (v.slug == slug) _ _
      (λ hit e. (
        (k, rw (eq_refl k) e),
        ap (λ o. (or_tenant v o).slug) (sym e) ∙ (eq_iff v.slug slug).0 hit,
      ))
      (λ miss e. later (scan-Holds m slug t u.1 e)) h
  where
    or_tenant : Tenant → Option Tenant → Tenant
    or_tenant d none = d
    or_tenant d (some w) = w

    later : Holds m t × (t.slug ≡ slug) → Holds ((k, v) ∷ m) t × (t.slug ≡ slug)
    later ((j, held), e) = ((j, ground (arith, u.0, eq_iff k j)), e)

scan_complete :
    (m : Map Str Tenant) (slug k : Str) (t : Tenant)
    → get m k ≡ some t
    → t.slug ≡ slug
    → is_some (scan m slug) ≡ true
unfolding scan get
scan_complete [] slug k t h e = cc
scan_complete ((j, v) ∷ m) slug k t h e =
    ground (arith, eq_iff j k, eq_iff v.slug slug, scan_complete m slug k t)

-- On an indexed store, a scan of the tenants finds what the index by slug has.
pub scan-Indexed :
    (s : TenantStore) (slug : Str) → Indexed s → scan s.by_id slug ≡ get s.by_slug slug
scan-Indexed s slug v = go (scan s.by_id slug) (get s.by_slug slug) refl refl
  where
    go : (o p : Option Tenant) → scan s.by_id slug ≡ o → get s.by_slug slug ≡ p → o ≡ p
    go none none e f = refl
    go none (some t) e f = clash (
        ap is_some (sym e)
        ∙ scan_complete s.by_id slug t.id t (v.slugged slug t f).0 (v.slugged slug t f).1)
      where
        clash : is_some {A = Tenant} none ≡ true → none ≡ some t
        clash h = cc
    go (some t) p e f = found_at (scan-Holds s.by_id slug t v.unique e)
      where
        found_at : Holds s.by_id t × (t.slug ≡ slug) → some t ≡ p
        found_at ((k, held), at) =
            sym (v.reached t (ap (get s.by_id) (v.keyed k t held) ∙ held))
            ∙ ap (get s.by_slug) at
            ∙ f

pub new-Indexed : Indexed new
unfolding get
new-Indexed = record {
  unique = tt;
  keyed = λ k t h. cc;
  slugged = λ k t h. cc;
  reached = λ t h. cc;
}

differ : (a b c d : Str) → (a ≡ b → c ≡ d) → (c == d) ≡ false → (a == b) ≡ false
differ a b c d h k = ground (arith, eq_iff a b, eq_iff c d)

same_tenant : (t u : Tenant) → some t ≡ some u → t ≡ u
same_tenant t u h = cc

-- A tenant is stored under an identifier and a slug that no other tenant has.
pub store-Indexed :
    (s : TenantStore) (t : Tenant)
    → ((u : Tenant) → get s.by_id t.id ≡ some u → u.slug ≡ t.slug)
    → ((u : Tenant) → get s.by_slug t.slug ≡ some u → u.id ≡ t.id)
    → Indexed s
    → Indexed (record { by_id = put s.by_id t.id t; by_slug = put s.by_slug t.slug t })
store-Indexed s t same_slug same_id v = record {
  unique = put-IsUnique s.by_id t.id t v.unique;
  keyed = λ k u h. elim (found-put s.by_id t.id k t u h) [
    | inl (e, f) ↦ sym (ap id_of f) ∙ e
    | inr (_, held) ↦ v.keyed k u held
  ];
  slugged = λ k u h. elim (found-put s.by_slug t.slug k t u h) [
    | inl (e, f) ↦ (
      subst (λ w. get (put s.by_id t.id t) w.id ≡ some w) f (get-put-same s.by_id t.id t),
      sym (ap slug_of f) ∙ e,
    )
    | inr (other, held) ↦ slugged_before k u other (v.slugged k u held)
  ];
  reached = λ u h. elim (found-put s.by_id t.id u.id t u h) [
    | inl (_, f) ↦
        subst (λ w. get (put s.by_slug t.slug t) w.slug ≡ some w) f
          (get-put-same s.by_slug t.slug t)
    | inr (other, held) ↦
        get-put-other s.by_slug t.slug u.slug t (
          differ t.slug u.slug t.id u.id
            (λ e. sym (same_id u (ap (get s.by_slug) e ∙ v.reached u held))) other)
        ∙ v.reached u held
  ];
}
  where
    id_of : Tenant → Str
    id_of u = u.id

    slug_of : Tenant → Str
    slug_of u = u.slug

    slugged_before :
        (k : Str) (u : Tenant)
        → (t.slug == k) ≡ false
        → (get s.by_id u.id ≡ some u) × (u.slug ≡ k)
        → (get (put s.by_id t.id t) u.id ≡ some u) × (u.slug ≡ k)
    slugged_before k u other (held, e) = (
      get-put-other s.by_id t.id u.id t (
            differ t.id u.id t.slug k (λ f. sym (same_slug u (ap (get s.by_id) f ∙ held)) ∙ e)
              other)
          ∙ held,
      e,
    )

pub remove-Indexed :
    (s : TenantStore) (t : Tenant)
    → get s.by_id t.id ≡ some t
    → Indexed s
    → Indexed (record { by_id = delete s.by_id t.id; by_slug = delete s.by_slug t.slug })
remove-Indexed s t held v = record {
  unique = delete-IsUnique s.by_id t.id v.unique;
  keyed = λ k u h. v.keyed k u (found-delete s.by_id t.id k u h).1;
  slugged = λ k u h.
      slugged_before k u (found-delete s.by_slug t.slug k u h).0
        (v.slugged k u (found-delete s.by_slug t.slug k u h).1);
  reached = λ u h.
      reached_before u (found-delete s.by_id t.id u.id u h).0
        (v.reached u (found-delete s.by_id t.id u.id u h).1);
}
  where
    slugged_before :
        (k : Str) (u : Tenant)
        → (t.slug == k) ≡ false
        → (get s.by_id u.id ≡ some u) × (u.slug ≡ k)
        → (get (delete s.by_id t.id) u.id ≡ some u) × (u.slug ≡ k)
    slugged_before k u other (at, e) = (
      get-delete-other s.by_id t.id u.id (
            differ t.id u.id t.slug k
              (λ f. ap (λ w. w.slug) (same_tenant t u (sym held ∙ ap (get s.by_id) f ∙ at)) ∙ e)
              other)
          ∙ at,
      e,
    )

    reached_before :
        (u : Tenant)
        → (t.id == u.id) ≡ false
        → get s.by_slug u.slug ≡ some u
        → get (delete s.by_slug t.slug) u.slug ≡ some u
    reached_before u other at =
        get-delete-other s.by_slug t.slug u.slug (
          differ t.slug u.slug t.id u.id
            (λ f.
              ap (λ w. w.id) (same_tenant t u (sym (v.reached t held) ∙ ap (get s.by_slug) f ∙ at)))
            other)
        ∙ at
