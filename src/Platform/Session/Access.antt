-- ===== src/Platform/Session/Access.antt =====
-- pkg/platform: from a login to the requests that its token admits.
use neurosentry.Common.{
  Bool, Option, Str, Time, [], ap, false, get, has_prefix, if◌then◌else◌, inl, inr, int_eq,
  is_empty, is_space, nat_eq, none, not, refl, some, str, str_eq, subst, sym, trim_left,
  trim_prefix, trim_right, trim_space, true, ◌++◌, ◌∙◌, ◌∷◌, ◌≡◌, ◌⊎◌,
}
use neurosentry.Platform.Rbac.{Permission, Principal, can, new_principal}
use neurosentry.Platform.Users.{Ref, UserStore, user_active}
use neurosentry.Platform.Users.Provider.{
  Credentials, Outcome, authenticate, crash, granted, principal_of, refused,
}
use neurosentry.Platform.Users.Held.{}
use neurosentry.Platform.Users.Login.{Grounds, authenticate_sound}
use neurosentry.Platform.Tokens.{
  Claims, Codec, TokenError, TokenIssuer, claims_of, expired, issue, principal_from_claims, verify,
}
use neurosentry.Platform.Tokens.Split.{}
use neurosentry.Platform.Tokens.Signed.{Compact, Lawful, Readable, is_over, verify-issue}
use neurosentry.Platform.Session.{
  Authenticator, IdentityProvider, LoginFailure, Request, Resolution, admitted, bearer, checked,
  forbidden, issued, login, not_issued, require, require_resolved, resolve, resolve_key, somebody,
  unauthorized, unknown_provider,
}

trim_right-Compact : (s : Str) → Compact s → trim_right is_space s ≡ s
unfolding trim_right
trim_right-Compact [] h = refl
trim_right-Compact (c ∷ s) h = rw (h.0, trim_right-Compact s h.1) refl

trim_space-Compact : (s : Str) → Compact s → trim_space s ≡ s
unfolding trim_space trim_left
trim_space-Compact [] h = trim_right-Compact [] h
trim_space-Compact (c ∷ s) h = rw h.0 (trim_right-Compact (c ∷ s) h)

trim_prefix_bearer : (token : Str) → trim_prefix (str "Bearer " ++ token) (str "Bearer ") ≡ token
unfolding trim_prefix has_prefix
trim_prefix_bearer token = refl

-- The header that carries a token.
abbrev pub with_token : Str → Request
with_token token = record { authorization = str "Bearer " ++ token; x_api_key = [] }

module _ (codec : Codec) (hash : Str → Str) (prf : Str → Str → Str) where
  -- The claims of a principal that a provider made give it back.
  built :
      (ti : TokenIssuer) (now : Time) {s : UserStore} {creds : Credentials} {p : Principal}
      → ((r : Ref) × Grounds hash prf s creds r
          × ((s.heap r).status ≡ user_active)
          × (p ≡ principal_of (s.heap r)))
      → principal_from_claims (claims_of ti now p) ≡ p
  unfolding principal_from_claims claims_of principal_of new_principal
  built ti now (r, _, _, e) =
      subst (λ q. principal_from_claims (claims_of ti now q) ≡ q) (sym e) refl

  -- What a login that went well has.
  login_sound :
      (a : Authenticator) (now : Time) (provider : Str) (creds : Credentials) (token : Str)
      (p : Principal) (local_provider : IdentityProvider)
      → get a.providers (if is_empty provider then str "local" else provider) ≡ some local_provider
      → login codec a now provider creds ≡ inr (token, p)
      → (local_provider creds ≡ granted p) × (issue codec a.issuer now p ≡ some token)
  unfolding login issued
  login_sound a now provider creds token p local_provider known h =
      answered (local_provider creds) refl (sym (ap outcome known) ∙ h)
    where
      success : LoginFailure ⊎ (Str × Principal)
      success = inr (token, p)

      outcome : Option IdentityProvider → LoginFailure ⊎ (Str × Principal)
      outcome o = elim o [
        | none ↦ inl unknown_provider
        | some f ↦ issued codec a.issuer now (f creds)
      ]

      made : Principal → Option Str → LoginFailure ⊎ (Str × Principal)
      made q o = elim o [ none ↦ inl not_issued | some t ↦ inr (t, q) ]

      same_user : (q : Principal) (t : Str) → made q (some t) ≡ success → q ≡ p
      same_user q t e = cc

      same_token : (q : Principal) (t : Str) → made q (some t) ≡ success → t ≡ token
      same_token q t e = cc

      Went : Type 0
      Went = (local_provider creds ≡ granted p) × (issue codec a.issuer now p ≡ some token)

      signed :
          (q : Principal) (o : Option Str)
          → local_provider creds ≡ granted q
          → issue codec a.issuer now q ≡ o
          → made q o ≡ success
          → Went
      signed q none e f g = cc
      signed q (some t) e f g = (
        e ∙ ap granted (same_user q t g),
        ap (issue codec a.issuer now) (sym (same_user q t g)) ∙ f ∙ ap some (same_token q t g),
      )

      answered :
          (o : Outcome) → local_provider creds ≡ o → issued codec a.issuer now o ≡ success → Went
      answered (refused f) e g = cc
      answered crash e g = cc
      answered (granted q) e g = signed q (issue codec a.issuer now q) e refl g

  abbrev said : TokenError ⊎ Claims → Option Principal
  said v = elim v [ inl e ↦ none | inr c ↦ some (principal_from_claims c) ]

  -- The bearer of a token that is verified to these claims.
  bearer_verified :
      (ti : TokenIssuer) (now : Time) (token : Str) (v : TokenError ⊎ Claims)
      → Compact token
      → verify codec ti now token ≡ v
      → bearer codec ti now (str "Bearer " ++ token) ≡ said v
  unfolding bearer has_prefix
  bearer_verified ti now token v h e =
      ap (λ t. said (verify codec ti now t))
        (ap trim_space (trim_prefix_bearer token) ∙ trim_space-Compact token h)
      ∙ ap said e

  -- From login to request: if the local provider let a user in and the token was made, a request with
  -- that token is admitted for a permission exactly when the user has it, with the same principal, until
  -- the claims are over, and is turned away as unauthorized from then on. HMAC is any function; base64
  -- and JSON are as their packages promise.
  pub require-login :
      (lawful : Lawful codec) (a : Authenticator) (s : UserStore) (now later : Time)
      (provider : Str) (creds : Credentials) (token : Str) (p : Principal)
      (users : Option UserStore) (perm : Permission)
      → get a.providers (if is_empty provider then str "local" else provider)
        ≡ some (authenticate hash prf s)
      → login codec a now provider creds ≡ inr (token, p)
      → Readable codec (claims_of a.issuer now p)
      → require codec hash a.issuer users perm later none (with_token token) ≡ (
          if is_over (claims_of a.issuer now p) later
          then unauthorized
          else if not (can (some p) perm)
          then forbidden
          else admitted p)
  unfolding require require_resolved resolve resolve_key checked
  require-login lawful a s now later provider creds token p users perm known h r =
      go (is_over (claims_of a.issuer now p) later)
        (presented (verify-issue codec lawful a.issuer now later p r))
    where
      went : (authenticate hash prf s creds ≡ granted p) × (issue codec a.issuer now p ≡ some token)
      went = login_sound a now provider creds token p (authenticate hash prf s) known h

      claims : Claims
      claims = claims_of a.issuer now p

      same : principal_from_claims claims ≡ p
      same = built a.issuer now (authenticate_sound hash prf s creds p went.0)

      verified : Bool → TokenError ⊎ Claims
      verified over = if over then inl expired else inr claims

      same_text : (t : Str) → some t ≡ some token → t ≡ token
      same_text t e = cc

      presented :
          ((t : Str) × (issue codec a.issuer now p ≡ some t)
            × Compact t
            × (verify codec a.issuer later t ≡ verified (is_over claims later)))
          → bearer codec a.issuer later (str "Bearer " ++ token)
            ≡ said (verified (is_over claims later))
      presented (t, e, compact, f) =
          bearer_verified a.issuer later token (verified (is_over claims later))
            (subst Compact (same_text t (sym e ∙ went.1)) compact)
            (ap (verify codec a.issuer later) (sym (same_text t (sym e ∙ went.1))) ∙ f)

      with_bearer : Option Principal → Resolution
      with_bearer o = elim o [ none ↦ resolve_key codec hash users [] | some q ↦ somebody q ]

      no_key :
          (us : Option UserStore)
          → require_resolved perm (resolve_key codec hash us []) ≡ unauthorized
      no_key none = refl
      no_key (some us) = refl

      go :
          (over : Bool)
          → bearer codec a.issuer later (str "Bearer " ++ token) ≡ said (verified over)
          → require_resolved perm
              (with_bearer (bearer codec a.issuer later (str "Bearer " ++ token)))
            ≡ (if over then unauthorized else checked perm p)
      go true e = ap (λ o. require_resolved perm (with_bearer o)) e ∙ no_key users
      go false e = ap (λ o. require_resolved perm (with_bearer o)) e ∙ ap (checked perm) same
