-- ===== src/Platform/Tenants/Refinement.antt =====
-- pkg/platform/tenant.go: the store answers as the directory does.
use neurosentry.Common.{
  List, Option, Str, Time, [], ap, ap₂, delete, false, get, has, if_related, int_eq, is_empty,
  is_some, nat_eq, none, put, refl, some, str_eq, subst, sym, ◌||◌, ◌∙◌, ◌∷◌, ◌≡◌,
}
use neurosentry.Platform.Tenants.{
  StoreError, Tenant, TenantStore, completed, create, get_by_slug, get_tenant, identified, list,
  new, normalize_slug, not_found, remove, update, updated,
}
use neurosentry.Platform.Tenants.Directory.{
  Call, Directory, Reply, answered, ask, creates, deletes, found, gets, gets_slug, lists, removed,
  replay, run, step, updates,
}
use neurosentry.Platform.Tenants.Indexed.{
  Indexed, new-Indexed, remove-Indexed, scan-Indexed, store-Indexed,
}

-- A call on an indexed store: it stays indexed, its table is the directory's, and so is the reply.
abbrev Follows : TenantStore × Reply → Directory × Reply → Type 0
Follows x y = Indexed x.0 × (x.0.by_id ≡ y.0) × (x.1 ≡ y.1)

-- What a call that answers with a tenant gives, beside a call of the directory.
abbrev Agrees : TenantStore × Tenant × Option StoreError → Directory × Reply → Type 0
Agrees x y = Follows (x.0, answered x.1 x.2) y

same_some : (t u : Tenant) → some t ≡ some u → t ≡ u
same_some t u h = cc

create-Agrees :
    (s : TenantStore) (random : Str) (now : Time) (t : Tenant)
    → Indexed s
    → Agrees (create s random now t) (ask s.by_id (creates random now t))
unfolding create ask
create-Agrees s random now t v =
    if_related Agrees (is_empty t.slug || is_empty t.name) _ _ _ _ _ refl (λ _. (v, refl, refl))
      (λ _.
        if_related Agrees (has s.by_slug (normalize_slug t.slug)) _ _ _ _ _
          (ap is_some (sym (scan-Indexed s (normalize_slug t.slug) v))) (λ _. (v, refl, refl))
          (λ no_slug.
            if_related Agrees (has s.by_id (identified random t).id) _ _ _ _ _ refl
              (λ _. (v, refl, refl)) (λ no_id. (added no_slug no_id, refl, refl))))
  where
    u : Tenant
    u = completed now (identified random t)

    absent :
        (o : Option Tenant) → is_some o ≡ false → (w : Tenant) → o ≡ some w → (a b : Str) → a ≡ b
    absent none h w e a b = cc
    absent (some x) h w e a b = cc

    added :
        has s.by_slug (normalize_slug t.slug) ≡ false
        → has s.by_id (identified random t).id ≡ false
        → Indexed (record {
          by_id = put s.by_id (identified random t).id u;
          by_slug = put s.by_slug (normalize_slug t.slug) u;
        })
    added no_slug no_id =
        store-Indexed s u (λ w e. absent (get s.by_id u.id) no_id w e w.slug u.slug)
          (λ w e. absent (get s.by_slug u.slug) no_slug w e w.id u.id) v

update-Agrees :
    (s : TenantStore) (t : Tenant) → Indexed s → Agrees (update s t) (ask s.by_id (updates t))
unfolding update ask
update-Agrees s t v = go (get s.by_id t.id) refl
  where
    go :
        (o : Option Tenant)
        → get s.by_id t.id ≡ o
        → Agrees
            (elim o [
              | none ↦ (s, t, some not_found)
              | some old ↦ (
                record {
                  by_id = put s.by_id t.id (updated old t);
                  by_slug = put s.by_slug old.slug (updated old t);
                },
                updated old t,
                none,
              )
            ])
            (elim o [
              | none ↦ (s.by_id, answered t (some not_found))
              | some old ↦ (put s.by_id t.id (updated old t), answered (updated old t) none)
            ])
    go none e = (v, refl, refl)
    go (some old) e = (
      store-Indexed s (updated old t) (λ w f. ap (λ x. x.slug) (same_some w old (sym f ∙ e)))
          (λ w f.
            ap (λ x. x.id) (same_some w old (sym f ∙ v.reached old (ap (get s.by_id) at ∙ e))) ∙ at)
          v,
      refl,
      refl,
    )
      where
        at : old.id ≡ t.id
        at = v.keyed t.id old e

delete-Follows :
    (s : TenantStore) (id : Str)
    → Indexed s
    → Follows ((remove s id).0, removed (remove s id).1) (ask s.by_id (deletes id))
unfolding remove ask
delete-Follows s id v = go (get s.by_id id) refl
  where
    left : Option Tenant → TenantStore × Option StoreError
    left o = elim o [
      | none ↦ (s, some not_found)
      | some t ↦ (record { by_id = delete s.by_id id; by_slug = delete s.by_slug t.slug }, none)
    ]

    go :
        (o : Option Tenant)
        → get s.by_id id ≡ o
        → Follows
            ((left o).0, removed (left o).1)
            (elim o [
              | none ↦ (s.by_id, removed (some not_found))
              | some t ↦ (delete s.by_id id, removed none)
            ])
    go none e = (v, refl, refl)
    go (some t) e = (
      subst (λ k. Indexed (record { by_id = delete s.by_id k; by_slug = delete s.by_slug t.slug }))
          at (remove-Indexed s t (ap (get s.by_id) at ∙ e) v),
      refl,
      refl,
    )
      where
        at : t.id ≡ id
        at = v.keyed id t e

step-Follows : (s : TenantStore) (x : Call) → Indexed s → Follows (step s x) (ask s.by_id x)
unfolding step ask get_tenant get_by_slug list
step-Follows s (creates random now t) v = create-Agrees s random now t v
step-Follows s (gets id) v = (v, refl, refl)
step-Follows s (gets_slug slug) v =
    (v, refl, ap found (sym (scan-Indexed s (normalize_slug slug) v)))
step-Follows s lists v = (v, refl, refl)
step-Follows s (updates t) v = update-Agrees s t v
step-Follows s (deletes id) v = delete-Follows s id v

run-replay_from :
    (s : TenantStore) (xs : List Call) → Indexed s → (run s xs).1 ≡ (replay s.by_id xs).1
unfolding run replay
run-replay_from s [] v = refl
run-replay_from s (x ∷ xs) v = go (step-Follows s x v) (λ w. run-replay_from (step s x).0 xs w)
  where
    go :
        Follows (step s x) (ask s.by_id x)
        → (Indexed (step s x).0 → (run (step s x).0 xs).1 ≡ (replay (step s x).0.by_id xs).1)
        → (step s x).1 ∷ (run (step s x).0 xs).1
          ≡ (ask s.by_id x).1 ∷ (replay (ask s.by_id x).0 xs).1
    go (w, e, r) rest = ap₂ ◌∷◌ r (rest w ∙ ap (λ m. (replay m xs).1) e)

-- Whatever calls are made on a new store, each gets the reply that the directory gives: the table is
-- scanned for slugs there, so the two indexes of the store never disagree, and List has each tenant once.
pub run-replay : (xs : List Call) → (run new xs).1 ≡ (replay [] xs).1
run-replay xs = run-replay_from new xs new-Indexed
