-- ===== src/Platform/Tokens/Genuine.antt =====
-- pkg/platform/token.go: what a token that Verify accepts has.
use neurosentry.Common.{
  List, Option, Str, Time, [], ap, eq_iff, false, if_cases, if◌then◌else◌, inl, inr, int_eq, nat_eq,
  none, not, not-false, parts, refl, some, split_byte, str_eq, subst, sym, ◌++◌, ◌==◌, ◌∙◌, ◌∷◌,
  ◌≡◌, ◌⊎◌,
}
use neurosentry.Platform.Rbac.{}
use neurosentry.Platform.Tokens.{
  Claims, Codec, JwtHeader, TokenError, TokenIssuer, bad_alg, bad_claims, bad_claims_encoding,
  bad_header, bad_header_encoding, bad_signature, expired, hs256, mac, malformed, mismatch,
  signing_input, three, verify, verify_claims, verify_header, verify_parts,
}
use neurosentry.Platform.Tokens.Split.{joined, joined-split}
use neurosentry.Platform.Tokens.Signed.{is_over}

module _ (codec : Codec) (ti : TokenIssuer) where
  -- The token is three parts joined by dots: the third has the sum of the other two under the key, the
  -- first a header with HS256, the second the claims, and these are not over.
  pub record Genuine (now : Time) (token : Str) (c : Claims) : Type 0 where
    pub header : Str
    pub body : Str
    pub sum : Str
    pub split : token ≡ header ++ b'.' ∷ (body ++ b'.' ∷ sum)
    pub signed : codec.unb64 sum ≡ some (mac codec ti (signing_input codec header body))
    pub typed :
        (bytes : Str) × (h : JwtHeader) × (codec.unb64 header ≡ some bytes)
        × (codec.unmarshal_header bytes ≡ some h)
        × (h.alg ≡ hs256)
    pub said :
        (bytes : Str) × (codec.unb64 body ≡ some bytes) × (codec.unmarshal_claims bytes ≡ some c)
    pub live : is_over c now ≡ false

  claims_sound :
      (now : Time) (b : Str) (c : Claims)
      → verify_claims codec now b ≡ inr c
      → ((bytes : Str) × (codec.unb64 b ≡ some bytes) × (codec.unmarshal_claims bytes ≡ some c))
        × (is_over c now ≡ false)
  unfolding verify_claims
  claims_sound now b c h = decoded (codec.unb64 b) refl h
    where
      accepted : Claims → TokenError ⊎ Claims
      accepted d = inr d

      same : {d : Claims} → accepted d ≡ accepted c → d ≡ c
      same e = cc

      Said : Type 0
      Said =
          ((bytes : Str) × (codec.unb64 b ≡ some bytes) × (codec.unmarshal_claims bytes ≡ some c))
          × (is_over c now ≡ false)

      read :
          (bytes : Str) (o : Option Claims)
          → codec.unb64 b ≡ some bytes
          → codec.unmarshal_claims bytes ≡ o
          → (elim o [
            | none ↦ inl bad_claims
            | some d ↦ if is_over d now then inl expired else inr d
          ])
            ≡ accepted c
          → Said
      read bytes none e f g = cc
      read bytes (some d) e f g =
          if_cases (λ (r : TokenError ⊎ Claims). r ≡ accepted c → Said) (is_over d now) _ _
            (λ _ k. cc)
            (λ live k.
              ((bytes, e, f ∙ ap some (same k)), subst (λ x. is_over x now ≡ false) (same k) live))
            g

      decoded :
          (o : Option Str)
          → codec.unb64 b ≡ o
          → (elim o [
            | none ↦ inl bad_claims_encoding
            | some bytes ↦ elim (codec.unmarshal_claims bytes) [
              | none ↦ inl bad_claims
              | some d ↦ if is_over d now then inl expired else inr d
            ]
          ])
            ≡ accepted c
          → Said
      decoded none e g = cc
      decoded (some bytes) e g = read bytes (codec.unmarshal_claims bytes) e refl g

  header_sound :
      (now : Time) (h b : Str) (c : Claims)
      → verify_header codec now h b ≡ inr c
      → ((bytes : Str) × (d : JwtHeader) × (codec.unb64 h ≡ some bytes)
          × (codec.unmarshal_header bytes ≡ some d)
          × (d.alg ≡ hs256))
        × (verify_claims codec now b ≡ inr c)
  unfolding verify_header
  header_sound now h b c g = decoded (codec.unb64 h) refl g
    where
      accepted : TokenError ⊎ Claims
      accepted = inr c

      Typed : Type 0
      Typed =
          ((bytes : Str) × (d : JwtHeader) × (codec.unb64 h ≡ some bytes)
            × (codec.unmarshal_header bytes ≡ some d)
            × (d.alg ≡ hs256))
          × (verify_claims codec now b ≡ accepted)

      read :
          (bytes : Str) (o : Option JwtHeader)
          → codec.unb64 h ≡ some bytes
          → codec.unmarshal_header bytes ≡ o
          → (elim o [
            | none ↦ inl bad_header
            | some d ↦ if not (d.alg == hs256) then inl bad_alg else verify_claims codec now b
          ])
            ≡ accepted
          → Typed
      read bytes none e f k = cc
      read bytes (some d) e f k =
          if_cases (λ (r : TokenError ⊎ Claims). r ≡ accepted → Typed) (not (d.alg == hs256)) _ _
            (λ _ i. cc) (λ alg i. ((bytes, d, e, f, (eq_iff d.alg hs256).0 (not-false _ alg)), i)) k

      decoded :
          (o : Option Str)
          → codec.unb64 h ≡ o
          → (elim o [
            | none ↦ inl bad_header_encoding
            | some bytes ↦ elim (codec.unmarshal_header bytes) [
              | none ↦ inl bad_header
              | some d ↦ if not (d.alg == hs256) then inl bad_alg else verify_claims codec now b
            ]
          ])
            ≡ accepted
          → Typed
      decoded none e k = cc
      decoded (some bytes) e k = read bytes (codec.unmarshal_header bytes) e refl k

  parts_sound :
      (now : Time) (h b sig : Str) (c : Claims)
      → verify_parts codec ti now (h, b, sig) ≡ inr c
      → (codec.unb64 sig ≡ some (mac codec ti (signing_input codec h b)))
        × (verify_header codec now h b ≡ inr c)
  unfolding verify_parts
  parts_sound now h b sig c g = decoded (codec.unb64 sig) refl g
    where
      accepted : TokenError ⊎ Claims
      accepted = inr c

      Signed : Type 0
      Signed =
          (codec.unb64 sig ≡ some (mac codec ti (signing_input codec h b)))
          × (verify_header codec now h b ≡ accepted)

      decoded :
          (o : Option Str)
          → codec.unb64 sig ≡ o
          → (elim o [
            | none ↦ inl bad_signature
            | some got ↦
                if not (mac codec ti (signing_input codec h b) == got)
                then inl mismatch
                else verify_header codec now h b
          ])
            ≡ accepted
          → Signed
      decoded none e k = cc
      decoded (some got) e k =
          if_cases (λ (r : TokenError ⊎ Claims). r ≡ accepted → Signed)
            (not (mac codec ti (signing_input codec h b) == got)) _ _ (λ _ i. cc)
            (λ same i. (e ∙ ap some (sym ((eq_iff _ got).0 (not-false _ same))), i)) k

  three-joined :
      (q : Str × List Str) (h b sig : Str)
      → three (parts q) ≡ some (h, b, sig)
      → joined b'.' q ≡ h ++ b'.' ∷ (b ++ b'.' ∷ sig)
  three-joined (x, []) h b sig e = cc
  three-joined (x, y ∷ []) h b sig e = cc
  three-joined (x, y ∷ z ∷ []) h b sig e = cc
  three-joined (x, y ∷ z ∷ w ∷ ws) h b sig e = cc

  -- Whatever token Verify accepts, an attacker's too: it is three parts joined by dots, the third has the
  -- sum of the other two under the issuer's key, the header says HS256, and the claims that Verify returns
  -- are those of the second part and are not over.
  pub verify_sound :
      (now : Time) (token : Str) (c : Claims)
      → verify codec ti now token ≡ inr c
      → Genuine now token c
  unfolding verify
  verify_sound now token c g = go (three (parts (split_byte b'.' token))) refl g
    where
      accepted : TokenError ⊎ Claims
      accepted = inr c

      go :
          (o : Option (Str × Str × Str))
          → three (parts (split_byte b'.' token)) ≡ o
          → (elim o [ none ↦ inl malformed | some p ↦ verify_parts codec ti now p ]) ≡ accepted
          → Genuine now token c
      go none e k = cc
      go (some (h, b, sig)) e k =
          let whole = parts_sound now h b sig c k in
          let top = header_sound now h b c whole.1 in
          record {
            header = h;
            body = b;
            sum = sig;
            split = sym (joined-split b'.' token) ∙ three-joined (split_byte b'.' token) h b sig e;
            signed = whole.0;
            typed = top.0;
            said = (claims_sound now b c top.1).0;
            live = (claims_sound now b c top.1).1;
          }
