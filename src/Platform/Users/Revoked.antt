-- ===== src/Platform/Users/Revoked.antt =====
-- pkg/platform/identity.go and provider.go: an API key that was revoked.
use neurosentry.Common.{
  All, Bool, IsUnique, List, Map, Option, Str, [], ap, eq_iff, eq_refl, false, get, get-put-other,
  has, if_cases, int_eq, is_empty, keep, nat_eq, none, not, not-true, put, refl, some, str_eq,
  subst, sym, true, ◌==◌, ◌∙◌, ◌∷◌, ◌≡◌, ◌≢◌,
}
use neurosentry.Platform.Rbac.{Principal, new_principal}
use neurosentry.Platform.Users.{
  Ref, User, UserStore, assign, drop_keys, index_keys, new, nil, owner, resolve_api_key,
  revoke_api_key, unknown, update, user_active, user_at,
}
use neurosentry.Platform.Users.Provider.{Credentials, authenticate, granted, principal_of}
use neurosentry.Platform.Users.Held.{
  Call, Held, assign-Held, found-drop_keys, run, run-Held, update-Held,
}
use neurosentry.Platform.Tenants.{StoreError}
use neurosentry.Platform.Users.Login.{Grounds, authenticate_sound, by_key, by_password}

module _ (hash : Str → Str) (prf : Str → Str → Str) where
  index_keys_out :
      (m : Map Str Str) (hs : List Str) (id h : Str)
      → All (λ k. (k == h) ≡ false) hs
      → get (index_keys m hs id) h ≡ get m h
  unfolding index_keys
  index_keys_out m [] id h out = refl
  index_keys_out m (k ∷ hs) id h out =
      index_keys_out (put m k id) hs id h out.1 ∙ get-put-other m k h id out.0

  revoked_out :
      (raw : Str) (u : User)
      → All (λ k. (k == hash raw) ≡ false) (revoke_api_key hash raw u).api_key_hashes
  unfolding revoke_api_key
  revoked_out raw u = go u.api_key_hashes
    where
      go : (hs : List Str) → All (λ k. (k == hash raw) ≡ false) (keep (λ h. not (h == hash raw)) hs)
      go [] = tt
      go (h ∷ hs) =
          if_cases (λ (ks : List Str). All (λ k. (k == hash raw) ≡ false) ks) (not (h == hash raw))
            _ _ (λ out. (not-true _ out, go hs)) (λ _. go hs)

  -- Revoking a key of a user and storing the user with Update.
  abbrev pub revoked : UserStore → Ref → Str → UserStore
  revoked s r raw = (update (assign s r (revoke_api_key hash raw (s.heap r))) r).0

  -- After Update, a key that the user does not hold is not the user's.
  update-owner :
      (s : UserStore) (r : Ref) (h uid : Str)
      → IsUnique s.by_api_key
      → has s.by_id (s.heap r).id ≡ true
      → All (λ k. (k == h) ≡ false) (s.heap r).api_key_hashes
      → get (update s r).0.by_api_key h ≡ some uid
      → (uid == (s.heap r).id) ≡ false
  unfolding update
  update-owner s r h uid u known out =
      if_cases
        (λ (x : UserStore × Option StoreError).
          get x.0.by_api_key h ≡ some uid → (uid == (s.heap r).id) ≡ false)
        (not (has s.by_id (s.heap r).id)) _ _ (λ absent e. clash (sym known ∙ not-true _ absent))
        (λ _ e.
          (found-drop_keys s.by_api_key (s.heap r).id h uid u (
            sym (
              index_keys_out (drop_keys s.by_api_key (s.heap r).id) (s.heap r).api_key_hashes
                (s.heap r).id h out)
            ∙ e)).0)
    where
      clash : true ≡ false → (uid == (s.heap r).id) ≡ false
      clash e = cc

  resolve-found :
      (s : UserStore) (raw : Str) (r : Ref)
      → resolve_api_key hash s raw ≡ user_at r
      → (uid : Str) × (get s.by_api_key (hash raw) ≡ some uid) × (get s.by_id uid ≡ some r)
  unfolding resolve_api_key owner
  resolve-found s raw r h = go (get s.by_api_key (hash raw)) refl h
    where
      at :
          (uid : Str) (o : Option Ref)
          → (elim o [ none ↦ nil | some q ↦ user_at q ]) ≡ user_at r
          → o ≡ some r
      at uid none e = cc
      at uid (some q) e = cc

      go :
          (o : Option Str)
          → get s.by_api_key (hash raw) ≡ o
          → (elim o [ none ↦ unknown | some uid ↦ owner s uid ]) ≡ user_at r
          → (uid : Str) × (get s.by_api_key (hash raw) ≡ some uid) × (get s.by_id uid ≡ some r)
      go none e f = cc
      go (some uid) e f = (uid, e, at uid (get s.by_id uid) f)

  -- Once a key of a user is revoked and the user is stored with Update, the key does not log that user
  -- in. The store comes from any calls before, with any changes of its users that leave their identifiers
  -- alone, and the user is in it.
  pub authenticate-revoked :
      (heap : Ref → User) (xs : List Call) (r : Ref) (creds : Credentials) (p : Principal)
      → has (run (new heap) xs).by_id ((run (new heap) xs).heap r).id ≡ true
      → is_empty creds.api_key ≡ false
      → authenticate hash prf (revoked (run (new heap) xs) r creds.api_key) creds ≡ granted p
      → p.user_id ≢ ((run (new heap) xs).heap r).id
  unfolding assign revoke_api_key principal_of new_principal
  authenticate-revoked heap xs r creds p known key h same =
      go (authenticate_sound hash prf (revoked s r creds.api_key) creds p h)
    where
      s : UserStore
      s = run (new heap) xs

      w : User
      w = revoke_api_key hash creds.api_key (s.heap r)

      changed : UserStore
      changed = assign s r w

      at : changed.heap r ≡ w
      at = rw (eq_refl r) refl

      v : Held (revoked s r creds.api_key)
      v =
          update-Held changed r
            (assign-Held s r w (λ k e. (run-Held heap xs).keyed k r e) (run-Held heap xs))

      not_theirs :
          (uid : Str)
          → get (revoked s r creds.api_key).by_api_key (hash creds.api_key) ≡ some uid
          → (uid == (s.heap r).id) ≡ false
      not_theirs uid e =
          subst (λ u. (uid == u.id) ≡ false) at
            (update-owner changed r (hash creds.api_key) uid (run-Held heap xs).unique
              (subst (λ u. has s.by_id u.id ≡ true) (sym at) known)
              (subst (λ u. All (λ k. (k == hash creds.api_key) ≡ false) u.api_key_hashes) (sym at)
                (revoked_out creds.api_key (s.heap r)))
              e)

      clash : (b : Bool) → b ≡ true → b ≡ false → ⊥
      clash true e f = cc
      clash false e f = cc

      go :
          ((q : Ref) × Grounds hash prf (revoked s r creds.api_key) creds q
            × (((revoked s r creds.api_key).heap q).status ≡ user_active)
            × (p ≡ principal_of ((revoked s r creds.api_key).heap q)))
          → ⊥
      go (q, by_password none_ _ _, _, _) = clash _ none_ key
      go (q, by_key _ e, _, is) =
          found_by (resolve-found (revoked s r creds.api_key) creds.api_key q e)
        where
          found_by :
              ((uid : Str) × (get (revoked s r creds.api_key).by_api_key (hash creds.api_key)
                  ≡ some uid)
                × (get (revoked s r creds.api_key).by_id uid ≡ some q))
              → ⊥
          found_by (uid, f, g) =
              clash (uid == (s.heap r).id)
                ((eq_iff uid (s.heap r).id).1
                  (sym (ap (λ x. x.user_id) is ∙ v.keyed uid q g) ∙ same))
                (not_theirs uid f)
