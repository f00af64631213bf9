-- ===== src/Platform/Users/Login.antt =====
-- pkg/platform/provider.go: whom an API key and a password log in.
use neurosentry.Common.{
  Bool, List, Option, Str, eq_iff, false, get, if_cases, if◌then◌else◌, int_eq, is_empty, is_some,
  nat_eq, none, not, not-false, not-true, refl, some, str_eq, true, ◌==◌, ◌||◌, ◌≡◌, ◌≢◌,
}
use neurosentry.Platform.Rbac.{Principal}
use neurosentry.Platform.Users.{
  Ref, Resolved, User, UserStore, get_by_email, new, nil, owner, resolve_api_key, unknown,
  user_active, user_at,
}
use neurosentry.Platform.Users.Passwords.{check_password}
use neurosentry.Platform.Users.Provider.{
  Credentials, Outcome, Refusal, authenticate, bad_credentials, crash, disabled, granted, missing,
  principal_of, refused, with_key, with_password,
}
use neurosentry.Platform.Users.Held.{Call, Held, run, run-Held}
use neurosentry.Platform.Tenants.{}

settled : (b : Bool) (f : Refusal) (p : Principal) → (if b then refused f else granted p) ≢ crash
settled true f p e = cc
settled false f p e = cc

settled_twice :
    (b c : Bool) (f g : Refusal) (p : Principal)
    → (if b then refused f else if c then refused g else granted p) ≢ crash
settled_twice true c f g p e = cc
settled_twice false true f g p e = cc
settled_twice false false f g p e = cc

module _ (hash : Str → Str) (prf : Str → Str → Str) where
  resolve-Held : (s : UserStore) (raw : Str) → Held s → resolve_api_key hash s raw ≢ nil
  unfolding resolve_api_key owner
  resolve-Held s raw v = go (get s.by_api_key (hash raw)) refl
    where
      owned_by :
          (o : Option Ref) → is_some o ≡ true → (elim o [ none ↦ nil | some r ↦ user_at r ]) ≢ nil
      owned_by none h e = cc
      owned_by (some r) h e = cc

      go :
          (o : Option Str)
          → get s.by_api_key (hash raw) ≡ o
          → (elim o [ none ↦ unknown | some uid ↦ owner s uid ]) ≢ nil
      go none e f = cc
      go (some uid) e f = owned_by (get s.by_id uid) (v.owned (hash raw) uid e) f

  -- What holds of each way that a login can go.
  authenticate_cases :
      (P : Outcome → Type 0) (s : UserStore) (creds : Credentials)
      → ((f : Refusal) → P (refused f))
      → (is_empty creds.api_key ≡ false → P (with_key s (resolve_api_key hash s creds.api_key)))
      → ((r : Ref)
          → is_empty creds.api_key ≡ true
          → get_by_email s creds.tenant_id creds.email ≡ some r
          → P (with_password hash prf (s.heap r) creds.password))
      → P (authenticate hash prf s creds)
  unfolding authenticate
  authenticate_cases P s creds refuses keys passwords =
      if_cases P (not (is_empty creds.api_key)) _ _ (λ h. keys (not-true _ h))
        (λ no_key.
          if_cases P (is_empty creds.email || is_empty creds.password) _ _ (λ _. refuses missing)
            (λ _. go (get_by_email s creds.tenant_id creds.email) refl (not-false _ no_key)))
    where
      go :
          (o : Option Ref)
          → get_by_email s creds.tenant_id creds.email ≡ o
          → is_empty creds.api_key ≡ true
          → P (elim o [
            | none ↦ refused bad_credentials
            | some r ↦ with_password hash prf (s.heap r) creds.password
          ])
      go none e h = refuses bad_credentials
      go (some r) e h = passwords r h e

  -- After any calls of a new store, and any changes of its users that leave their identifiers alone, no
  -- login comes upon a nil user: each API key belongs to a user that is there.
  pub authenticate-run :
      (heap : Ref → User) (xs : List Call) (creds : Credentials)
      → authenticate hash prf (run (new heap) xs) creds ≢ crash
  unfolding with_key with_password
  authenticate-run heap xs creds =
      authenticate_cases (λ o. o ≢ crash) (run (new heap) xs) creds (λ f e. cc)
        (λ _.
          by_a_key (resolve_api_key hash (run (new heap) xs) creds.api_key)
            (resolve-Held (run (new heap) xs) creds.api_key (run-Held heap xs)))
        (λ r _ _.
          settled_twice (not (((run (new heap) xs).heap r).status == user_active))
            (not (check_password prf ((run (new heap) xs).heap r) creds.password)) disabled
            bad_credentials (principal_of ((run (new heap) xs).heap r)))
    where
      by_a_key : (q : Resolved) → q ≢ nil → with_key (run (new heap) xs) q ≢ crash
      by_a_key unknown h = λ e. cc
      by_a_key nil h = λ e. h refl
      by_a_key (user_at r) h =
          settled (not (((run (new heap) xs).heap r).status == user_active)) disabled
            (principal_of ((run (new heap) xs).heap r))

  -- What must hold for a login as the user at `r`.
  pub data Grounds (s : UserStore) (creds : Credentials) (r : Ref) : Type 0 where
    by_key :
        is_empty creds.api_key ≡ false
        → resolve_api_key hash s creds.api_key ≡ user_at r
        → Grounds s creds r
    by_password :
        is_empty creds.api_key ≡ true
        → get_by_email s creds.tenant_id creds.email ≡ some r
        → check_password prf (s.heap r) creds.password ≡ true
        → Grounds s creds r

  -- A login is granted only as a user who is active at the time, and who has the API key, or else the
  -- email and the password, that were given.
  pub authenticate_sound :
      (s : UserStore) (creds : Credentials) (p : Principal)
      → authenticate hash prf s creds ≡ granted p
      → (r : Ref) × Grounds s creds r
        × ((s.heap r).status ≡ user_active)
        × (p ≡ principal_of (s.heap r))
  unfolding with_key with_password
  authenticate_sound s creds p h =
      authenticate_cases (λ o. o ≡ granted p → Granted) s creds (λ f e. cc)
        (λ key e. by_a_key (resolve_api_key hash s creds.api_key) refl key e)
        (λ r no_key found e.
          if_cases (λ (o : Outcome). o ≡ granted p → Granted)
            (not ((s.heap r).status == user_active)) _ _ (λ _ f. cc)
            (λ active.
              if_cases (λ (o : Outcome). o ≡ granted p → Granted)
                (not (check_password prf (s.heap r) creds.password)) _ _ (λ _ f. cc)
                (λ good f.
                  (r, by_password no_key found (not-false _ good), is_active r active, same f)))
            e)
        h
    where
      Granted : Type 0
      Granted =
          (r : Ref) × Grounds s creds r
          × ((s.heap r).status ≡ user_active)
          × (p ≡ principal_of (s.heap r))

      same : {q : Principal} → granted q ≡ granted p → p ≡ q
      same e = cc

      is_active :
          (r : Ref)
          → not ((s.heap r).status == user_active) ≡ false
          → (s.heap r).status ≡ user_active
      is_active r e = (eq_iff (s.heap r).status user_active).0 (not-false _ e)

      by_a_key :
          (q : Resolved)
          → resolve_api_key hash s creds.api_key ≡ q
          → is_empty creds.api_key ≡ false
          → with_key s q ≡ granted p
          → Granted
      by_a_key unknown f key e = cc
      by_a_key nil f key e = cc
      by_a_key (user_at r) f key e =
          if_cases (λ (o : Outcome). o ≡ granted p → Granted)
            (not ((s.heap r).status == user_active)) _ _ (λ _ g. cc)
            (λ active g. (r, by_key key f, is_active r active, same g)) e
