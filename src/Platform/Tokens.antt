-- ===== src/Platform/Tokens.antt =====
-- pkg/platform/token.go: the tokens that a login hands out. JSON, base64, HMAC-SHA256 and the clock are
-- arguments.
pub mod Split
pub mod Signed
pub mod Genuine
use neurosentry.Common.{
  Duration, List, Option, Str, Time, [], if◌then◌else◌, inl, inr, int_eq, leb_ℤ, nat_eq, negsuc,
  none, not, parts, pos, second, some, split_byte, str, str_eq, ℤ, ◌&&◌, ◌*◌, ◌++◌, ◌+ℤ◌, ◌-ℤ◌, ◌/◌,
  ◌==◌, ◌∷◌, ◌⊎◌,
}
use neurosentry.Platform.Rbac.{Principal, new_principal}

pub record Claims : Type 0 where
  pub subject : Str
  pub tenant_id : Str
  pub email : Str
  pub roles : List Str
  pub issued_at : ℤ
  pub expires_at : ℤ
  pub issuer : Str

pub record TokenIssuer : Type 0 where
  pub key : Str
  pub issuer : Str
  pub ttl : Duration

pub record JwtHeader : Type 0 where
  pub alg : Str
  pub typ : Str

-- What the packages json, base64 and hmac make of their arguments.
pub record Codec : Type 0 where
  pub b64 : Str → Str
  pub unb64 : Str → Option Str
  pub marshal_header : JwtHeader → Option Str
  pub marshal_claims : Claims → Option Str
  pub unmarshal_header : Str → Option JwtHeader
  pub unmarshal_claims : Str → Option Claims
  pub hmac : Str → Str → Str

-- NewTokenIssuer
unfoldable pub new_token_issuer : Str → Str → Duration → TokenIssuer
new_token_issuer key issuer ttl = record {
  key = key;
  issuer = issuer;
  ttl = if leb_ℤ ttl (pos 0) then pos (12 * 3600 * second) else ttl;
}

-- The seconds from the zero Time to 1970.
abbrev pub unix_epoch : ℤ
unix_epoch = pos 62135596800

-- The whole seconds of a number of nanoseconds, rounded down.
abbrev pub seconds : ℤ → ℤ
seconds (pos n) = pos (n / second)
seconds (negsuc n) = negsuc (n / second)

-- t.Unix()
unfoldable pub unix : Time → ℤ
unix t = seconds t -ℤ unix_epoch

abbrev pub hs256 : Str
hs256 = str "HS256"

-- The claims that Issue signs.
unfoldable pub claims_of : TokenIssuer → Time → Principal → Claims
unfolding unix
claims_of ti now p = record {
  subject = p.user_id;
  tenant_id = p.tenant_id;
  email = p.email;
  roles = p.roles;
  issued_at = unix now;
  expires_at = unix (now +ℤ ti.ttl);
  issuer = ti.issuer;
}

-- PrincipalFromClaims
unfoldable pub principal_from_claims : Claims → Principal
principal_from_claims c = new_principal c.subject c.tenant_id c.email c.roles

-- The errors of Verify.
pub data TokenError : Type 0 where
  malformed bad_signature mismatch bad_header_encoding bad_header bad_alg : TokenError
  bad_claims_encoding bad_claims expired : TokenError

-- strings.Split(token, "."), if it has three parts.
abbrev pub three : List Str → Option (Str × Str × Str)
three [] = none
three (a ∷ []) = none
three (a ∷ b ∷ []) = none
three (a ∷ b ∷ c ∷ []) = some (a, b, c)
three (a ∷ b ∷ c ∷ d ∷ more) = none

module _ (codec : Codec) where
  open codec use {
    b64, unb64, marshal_header, marshal_claims, unmarshal_header, unmarshal_claims, hmac,
  }

  -- mac
  unfoldable pub mac : TokenIssuer → Str → Str
  mac ti input = hmac ti.key input

  abbrev pub signing_input : Str → Str → Str
  signing_input h b = h ++ b'.' ∷ b

  -- sign: `none` for its errors.
  unfoldable pub sign : TokenIssuer → Claims → Option Str
  unfolding mac
  sign ti c = elim (marshal_header (record { alg = hs256; typ = str "JWT" })) [
    | none ↦ none
    | some h ↦ elim (marshal_claims c) [
      | none ↦ none
      | some b ↦
          some
            (signing_input (b64 h) (b64 b) ++ b'.' ∷ b64 (mac ti (signing_input (b64 h) (b64 b))))
    ]
  ]

  -- Issue
  unfoldable pub issue : TokenIssuer → Time → Principal → Option Str
  unfolding sign claims_of
  issue ti now p = sign ti (claims_of ti now p)

  -- The last part of Verify, with the claims.
  unfoldable pub verify_claims : Time → Str → TokenError ⊎ Claims
  unfolding unix
  verify_claims now b = elim (unb64 b) [
    | none ↦ inl bad_claims_encoding
    | some bytes ↦ elim (unmarshal_claims bytes) [
      | none ↦ inl bad_claims
      | some c ↦
          if not (c.expires_at == pos 0) && leb_ℤ c.expires_at (unix now)
          then inl expired
          else inr c
    ]
  ]

  -- The part of Verify that reads the header.
  unfoldable pub verify_header : Time → Str → Str → TokenError ⊎ Claims
  unfolding verify_claims
  verify_header now h b = elim (unb64 h) [
    | none ↦ inl bad_header_encoding
    | some bytes ↦ elim (unmarshal_header bytes) [
      | none ↦ inl bad_header
      | some header ↦ if not (header.alg == hs256) then inl bad_alg else verify_claims now b
    ]
  ]

  -- The part of Verify that has the three parts of the token.
  unfoldable pub verify_parts : TokenIssuer → Time → Str × Str × Str → TokenError ⊎ Claims
  unfolding verify_header mac
  verify_parts ti now (h, b, sig) = elim (unb64 sig) [
    | none ↦ inl bad_signature
    | some got ↦
        if not (mac ti (signing_input h b) == got) then inl mismatch else verify_header now h b
  ]

  -- Verify
  unfoldable pub verify : TokenIssuer → Time → Str → TokenError ⊎ Claims
  unfolding verify_parts
  verify ti now token = elim (three (parts (split_byte b'.' token))) [
    | none ↦ inl malformed
    | some p ↦ verify_parts ti now p
  ]
