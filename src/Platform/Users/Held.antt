-- ===== src/Platform/Users/Held.antt =====
-- pkg/platform/identity.go: what holds of a store of users after any calls.
use neurosentry.Common.{
  IsUnique, List, Map, Option, Str, Time, [], ap, arith, delete, eq_iff, eq_refl, false,
  found-delete, found-put, get, get-delete-other, get-retain, has, has-put, if_cases, inl, inr,
  int_eq, is_empty, is_some, kept, nat_eq, none, not, put, put-IsUnique, refl, retain-IsUnique,
  some, str, str_eq, sym, true, ◌==◌, ◌||◌, ◌∙◌, ◌∷◌, ◌≡◌, ◌⊎◌,
}
use neurosentry.Platform.Users.{
  Ref, User, UserStore, assign, create, drop_keys, email_key, enrolled, index_keys, insert, named,
  new, remove, update,
}
use neurosentry.Platform.Tenants.{StoreError, new_id, not_found}

-- A call of the store, or a change of a user by a holder of its pointer, who leaves the identifier alone.
pub data Call : Type 0 where
  creates : Str → Time → Ref → Call
  updates : Ref → Call
  deletes : Str → Call
  changes : Ref → User → Call

unfoldable pub step : UserStore → Call → UserStore
step s (creates random now r) = (create s random now r).0
step s (updates r) = (update s r).0
step s (deletes id) = (remove s id).0
step s (changes r u) = assign s r (record u { id = (s.heap r).id })

unfoldable pub run : UserStore → List Call → UserStore
unfolding step
run s [] = s
run s (x ∷ xs) = run (step s x) xs

-- Each key belongs to a user of the store, and each user is stored under its identifier.
pub record Held (s : UserStore) : Type 0 where
  pub unique : IsUnique s.by_api_key
  pub owned : (h uid : Str) → get s.by_api_key h ≡ some uid → has s.by_id uid ≡ true
  pub keyed : (k : Str) (r : Ref) → get s.by_id k ≡ some r → (s.heap r).id ≡ k
  pub nonempty : (k : Str) (r : Ref) → get s.by_id k ≡ some r → is_empty k ≡ false

pub found-index_keys :
    (m : Map Str Str) (hs : List Str) (id h uid : Str)
    → get (index_keys m hs id) h ≡ some uid
    → (uid ≡ id) ⊎ (get m h ≡ some uid)
unfolding index_keys
found-index_keys m [] id h uid e = inr e
found-index_keys m (k ∷ hs) id h uid e = elim (found-index_keys (put m k id) hs id h uid e) [
  | inl f ↦ inl f
  | inr f ↦ elim (found-put m k h id uid f) [ inl (_, g) ↦ inl (sym g) | inr (_, g) ↦ inr g ]
]

pub index_keys-IsUnique :
    (m : Map Str Str) (hs : List Str) (id : Str) → IsUnique m → IsUnique (index_keys m hs id)
unfolding index_keys
index_keys-IsUnique m [] id u = u
index_keys-IsUnique m (k ∷ hs) id u = index_keys-IsUnique (put m k id) hs id (put-IsUnique m k id u)

pub found-drop_keys :
    (m : Map Str Str) (id h uid : Str)
    → IsUnique m
    → get (drop_keys m id) h ≡ some uid
    → ((uid == id) ≡ false) × (get m h ≡ some uid)
unfolding drop_keys
found-drop_keys m id h uid u e =
    go (get m h) refl (sym (get-retain (λ k v. not (v == id)) m h u) ∙ e)
  where
    of_some : (v : Str) → some v ≡ some uid → v ≡ uid
    of_some v g = cc

    apart : (v : Str) → not (v == id) ≡ true → (v == id) ≡ false
    apart v g = ground arith

    go :
        (o : Option Str)
        → get m h ≡ o
        → kept (λ k v. not (v == id)) h o ≡ some uid
        → ((uid == id) ≡ false) × (get m h ≡ some uid)
    go none f k = cc
    go (some v) f k =
        if_cases (λ (o : Option Str). o ≡ some uid → ((uid == id) ≡ false) × (get m h ≡ some uid))
          (not (v == id)) _ _
          (λ keeps g. (ap (λ w. w == id) (sym (of_some v g)) ∙ apart v keeps, f ∙ g)) (λ _ g. cc) k

drop_keys-IsUnique : (m : Map Str Str) (id : Str) → IsUnique m → IsUnique (drop_keys m id)
unfolding drop_keys
drop_keys-IsUnique m id u = retain-IsUnique _ m u

pub assign-Held :
    (s : UserStore) (r : Ref) (v : User)
    → ((k : Str) → get s.by_id k ≡ some r → v.id ≡ k)
    → Held s
    → Held (assign s r v)
unfolding assign
assign-Held s r v same h = record {
  unique = h.unique;
  owned = h.owned;
  keyed = λ k q e.
      if_cases (λ (u : User). u.id ≡ k) (q == r) _ _
        (λ hit. same k (e ∙ ap some ((eq_iff q r).0 hit))) (λ _. h.keyed k q e);
  nonempty = h.nonempty;
}

-- A user is stored under its identifier, and the keys are those it holds, over a part of the old ones.
store-Held :
    (s : UserStore) (r : Ref) (id : Str) (m : Map Str Ref) (ks : Map Str Str) (hs : List Str)
    → (s.heap r).id ≡ id
    → is_empty id ≡ false
    → IsUnique ks
    → ((h uid : Str) → get ks h ≡ some uid → has s.by_id uid ≡ true)
    → Held s
    → Held (record s { by_id = put s.by_id id r; by_email = m; by_api_key = index_keys ks hs id })
store-Held s r id m ks hs at full u part v = record {
  unique = index_keys-IsUnique ks hs id u;
  owned = λ h uid e. has-put s.by_id id uid r ∙ elim (found-index_keys ks hs id h uid e) [
    | inl f ↦ rw (f, eq_refl id) refl
    | inr f ↦ ground (arith, part h uid f)
  ];
  keyed = λ k q e. elim (found-put s.by_id id k r q e) [
    | inl (f, g) ↦ ap (λ x. (s.heap x).id) (sym g) ∙ at ∙ f
    | inr (_, f) ↦ v.keyed k q f
  ];
  nonempty = λ k q e. elim (found-put s.by_id id k r q e) [
    | inl (f, _) ↦ ap is_empty (sym f) ∙ full
    | inr (_, f) ↦ v.nonempty k q f
  ];
}

named_full : (random : Str) (u : User) → is_empty (named random u).id ≡ false
unfolding named new_id
named_full random u =
    if_cases (λ (id : Str). is_empty id ≡ false) (is_empty u.id) _ _ (λ _. refl) (λ full. full)

-- A user of the store has its identifier already.
named_stored :
    (s : UserStore) (random : Str) (r : Ref) (k : Str)
    → Held s
    → get s.by_id k ≡ some r
    → (named random (s.heap r)).id ≡ k
unfolding named
named_stored s random r k v e =
    if_cases (λ (id : Str). id ≡ k) (is_empty (s.heap r).id) _ _
      (λ h. clash (sym h ∙ ap is_empty (v.keyed k r e) ∙ v.nonempty k r e)) (λ _. v.keyed k r e)
  where
    clash : true ≡ false → new_id (str "usr") random ≡ k
    clash h = cc

create-Held :
    (s : UserStore) (random : Str) (now : Time) (r : Ref) → Held s → Held (create s random now r).0
unfolding create insert enrolled assign
create-Held s random now r v =
    if_cases Good (is_empty (s.heap r).tenant_id || is_empty (s.heap r).email) _ _ (λ _. v)
      (λ _.
        if_cases Good (has s.by_email (email_key (s.heap r).tenant_id (s.heap r).email)) _ _
          (λ _. v)
          (λ _.
            if_cases Good (has s.by_id (named random (s.heap r)).id) _ _
              (λ _.
                assign-Held s r (named random (s.heap r)) (λ k e. named_stored s random r k v e) v)
              (λ _.
                store-Held (assign s r w) r w.id _ s.by_api_key w.api_key_hashes
                  (rw (eq_refl r) refl) (named_full random (s.heap r)) v.unique v.owned
                  (assign-Held s r w (λ k e. named_stored s random r k v e) v))))
  where
    Good : UserStore × Option StoreError → Type 0
    Good x = Held x.0

    w : User
    w = enrolled now (named random (s.heap r))

pub update-Held : (s : UserStore) (r : Ref) → Held s → Held (update s r).0
unfolding update
update-Held s r v =
    if_cases Good (not (has s.by_id (s.heap r).id)) _ _ (λ _. v)
      (λ known.
        store-Held s r (s.heap r).id _ (drop_keys s.by_api_key (s.heap r).id)
          (s.heap r).api_key_hashes refl (full (get s.by_id (s.heap r).id) refl known)
          (drop_keys-IsUnique s.by_api_key (s.heap r).id v.unique)
          (λ h uid e. v.owned h uid (found-drop_keys s.by_api_key (s.heap r).id h uid v.unique e).1)
          v)
  where
    Good : UserStore × Option StoreError → Type 0
    Good x = Held x.0

    full :
        (o : Option Ref)
        → get s.by_id (s.heap r).id ≡ o
        → not (is_some o) ≡ false
        → is_empty (s.heap r).id ≡ false
    full none e h = cc
    full (some q) e h = v.nonempty (s.heap r).id q e

remove-Held : (s : UserStore) (id : Str) → Held s → Held (remove s id).0
unfolding remove
remove-Held s id v = go (get s.by_id id)
  where
    left : Option Ref → UserStore × Option StoreError
    left o = elim o [
      | none ↦ (s, some not_found)
      | some r ↦ (
        record s {
          by_id = delete s.by_id id;
          by_email = delete s.by_email (email_key (s.heap r).tenant_id (s.heap r).email);
          by_api_key = drop_keys s.by_api_key id;
        },
        none,
      )
    ]

    go : (o : Option Ref) → Held (left o).0
    go none = v
    go (some r) = record {
      unique = drop_keys-IsUnique s.by_api_key id v.unique;
      owned = λ h uid e. owned_still h uid (found-drop_keys s.by_api_key id h uid v.unique e);
      keyed = λ k q e. v.keyed k q (found-delete s.by_id id k q e).1;
      nonempty = λ k q e. v.nonempty k q (found-delete s.by_id id k q e).1;
    }
      where
        owned_still :
            (h uid : Str)
            → ((uid == id) ≡ false) × (get s.by_api_key h ≡ some uid)
            → has (delete s.by_id id) uid ≡ true
        owned_still h uid (other, e) =
            ap is_some
              (get-delete-other s.by_id id uid (ground (arith, eq_iff uid id, eq_iff id uid)))
            ∙ v.owned h uid e

pub step-Held : (s : UserStore) (x : Call) → Held s → Held (step s x)
unfolding step
step-Held s (creates random now r) v = create-Held s random now r v
step-Held s (updates r) v = update-Held s r v
step-Held s (deletes id) v = remove-Held s id v
step-Held s (changes r u) v = assign-Held s r _ (λ k e. v.keyed k r e) v

later-Held : (s : UserStore) (xs : List Call) → Held s → Held (run s xs)
unfolding run
later-Held s [] v = v
later-Held s (x ∷ xs) v = later-Held (step s x) xs (step-Held s x v)

-- After any calls of a new store, and any changes of its users by those who hold their pointers.
pub run-Held : (heap : Ref → User) (xs : List Call) → Held (run (new heap) xs)
unfolding new get
run-Held heap xs =
    later-Held (new heap) xs
      (record { unique = tt; owned = λ h uid e. cc; keyed = λ k r e. cc; nonempty = λ k r e. cc })
