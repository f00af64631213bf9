-- ===== src/Platform/Tenants/Directory.antt =====
-- pkg/platform/tenant.go: the abstract tenant directory, one table of tenants that each call reads through.
use neurosentry.Common.{
  List, Map, Option, Str, Time, [], delete, get, has, if◌then◌else◌, int_eq, is_empty, is_some, map,
  nat_eq, none, put, some, str_eq, ◌==◌, ◌||◌, ◌∷◌,
}
use neurosentry.Platform.Tenants.{
  StoreError, Tenant, TenantStore, completed, conflict, create, get_by_slug, get_tenant, identified,
  list, normalize_slug, not_found, remove, required, update, updated,
}

abbrev pub Directory : Type 0
Directory = Map Str Tenant

-- The first tenant of the table with the slug.
unfoldable pub scan : Directory → Str → Option Tenant
scan [] slug = none
scan ((id, t) ∷ m) slug = if t.slug == slug then some t else scan m slug

-- A call of the store, with what it reads of the clock and of the random numbers.
pub data Call : Type 0 where
  creates : Str → Time → Tenant → Call
  gets gets_slug deletes : Str → Call
  lists : Call
  updates : Tenant → Call

-- What a call gives back.
pub data Reply : Type 0 where
  answered : Tenant → Option StoreError → Reply
  found : Option Tenant → Reply
  listed : List Tenant → Reply
  removed : Option StoreError → Reply

-- One call of the store.
unfoldable pub step : TenantStore → Call → TenantStore × Reply
step s (creates random now t) =
    ((create s random now t).0, answered (create s random now t).1 (create s random now t).2)
step s (gets id) = (s, found (get_tenant s id))
step s (gets_slug slug) = (s, found (get_by_slug s slug))
step s lists = (s, listed (list s))
step s (updates t) = ((update s t).0, answered (update s t).1 (update s t).2)
step s (deletes id) = ((remove s id).0, removed (remove s id).1)

unfoldable pub run : TenantStore → List Call → TenantStore × List Reply
unfolding step
run s [] = (s, [])
run s (x ∷ xs) = ((run (step s x).0 xs).0, (step s x).1 ∷ (run (step s x).0 xs).1)

-- One call of the directory.
unfoldable pub ask : Directory → Call → Directory × Reply
unfolding scan
ask m (creates random now t) =
    let u = completed now (identified random t) in
    if is_empty t.slug || is_empty t.name
    then (m, answered t (some required))
    else if is_some (scan m (normalize_slug t.slug))
    then (m, answered t (some conflict))
    else if has m (identified random t).id
    then (m, answered (identified random t) (some conflict))
    else (put m (identified random t).id u, answered u none)
ask m (gets id) = (m, found (get m id))
ask m (gets_slug slug) = (m, found (scan m (normalize_slug slug)))
ask m lists = (m, listed (map (λ x. x.1) m))
ask m (updates t) = elim (get m t.id) [
  | none ↦ (m, answered t (some not_found))
  | some old ↦ (put m t.id (updated old t), answered (updated old t) none)
]
ask m (deletes id) = elim (get m id) [
  | none ↦ (m, removed (some not_found))
  | some t ↦ (delete m id, removed none)
]

unfoldable pub replay : Directory → List Call → Directory × List Reply
unfolding ask
replay m [] = (m, [])
replay m (x ∷ xs) = ((replay (ask m x).0 xs).0, (ask m x).1 ∷ (replay (ask m x).0 xs).1)
