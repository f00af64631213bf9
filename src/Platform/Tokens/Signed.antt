-- ===== src/Platform/Tokens/Signed.antt =====
-- pkg/platform/token.go: what Verify accepts.
use neurosentry.Common.{
  All, All-append, Bool, Str, Time, eq_refl, false, if◌then◌else◌, inl, inr, int_eq, is_space,
  leb_ℤ, nat_eq, not, pos, refl, some, str, str_eq, ◌&&◌, ◌++◌, ◌==◌, ◌∷◌, ◌≡◌,
}
use neurosentry.Platform.Rbac.{Principal}
use neurosentry.Platform.Tokens.{
  Claims, Codec, JwtHeader, TokenIssuer, claims_of, expired, hs256, issue, mac, sign, signing_input,
  unix, verify, verify_claims, verify_header, verify_parts,
}
use neurosentry.Platform.Tokens.Split.{Free, three-parts}

abbrev pub standard_header : JwtHeader
standard_header = record { alg = hs256; typ = str "JWT" }

-- What base64 and JSON promise: base64 is undone by its decoder and has neither dots nor white space, and the header that sign
-- writes is read back.
pub record Lawful (codec : Codec) : Type 0 where
  pub decodes : (s : Str) → codec.unb64 (codec.b64 s) ≡ some s
  pub dotless : (s : Str) → Free b'.' (codec.b64 s)
  pub spaceless : (s : Str) → All (λ c. is_space c ≡ false) (codec.b64 s)
  pub header : Str
  pub header_written : codec.marshal_header standard_header ≡ some header
  pub header_read : codec.unmarshal_header header ≡ some standard_header

-- The JSON of the claims is read back, as it is where the texts are valid UTF-8.
pub record Readable (codec : Codec) (c : Claims) : Type 0 where
  pub bytes : Str
  pub written : codec.marshal_claims c ≡ some bytes
  pub read : codec.unmarshal_claims bytes ≡ some c

-- The claims are over at a time.
abbrev pub is_over : Claims → Time → Bool
is_over c now = not (c.expires_at == pos 0) && leb_ℤ c.expires_at (unix now)

-- There is no white space in a token.
abbrev pub Compact : Str → Type 0
Compact token = All (λ c. is_space c ≡ false) token

module _ (codec : Codec) (lawful : Lawful codec) where
  -- The token of some claims.
  token_of : TokenIssuer → Str → Str
  token_of ti bytes =
      signing_input codec (codec.b64 lawful.header) (codec.b64 bytes)
      ++ b'.'
        ∷ codec.b64 (mac codec ti (signing_input codec (codec.b64 lawful.header) (codec.b64 bytes)))

  token_of-Compact : (ti : TokenIssuer) (bytes : Str) → Compact (token_of ti bytes)
  unfolding token_of
  token_of-Compact ti bytes =
      All-append _ (codec.b64 _ ++ b'.' ∷ codec.b64 _) (b'.' ∷ codec.b64 _)
        (All-append _ (codec.b64 _) (b'.' ∷ codec.b64 _) (lawful.spaceless _)
          (refl, lawful.spaceless _))
        (refl, lawful.spaceless _)

  sign-token_of :
      (ti : TokenIssuer) (c : Claims) (r : Readable codec c)
      → sign codec ti c ≡ some (token_of ti r.bytes)
  unfolding sign token_of
  sign-token_of ti c r = rw (sign, lawful.header_written, r.written) refl

  verify-token_of :
      (ti : TokenIssuer) (c : Claims) (r : Readable codec c) (now : Time)
      → verify codec ti now (token_of ti r.bytes) ≡ (if is_over c now then inl expired else inr c)
  unfolding verify token_of
  verify-token_of ti c r now =
      rw (verify, three-parts b'.' h b sig (lawful.dotless _) (lawful.dotless _) (lawful.dotless _))
        checks
    where
      h : Str
      h = codec.b64 lawful.header

      b : Str
      b = codec.b64 r.bytes

      sum : Str
      sum = mac codec ti (signing_input codec h b)

      sig : Str
      sig = codec.b64 sum

      claims : verify_claims codec now b ≡ (if is_over c now then inl expired else inr c)
      claims = rw (verify_claims, lawful.decodes r.bytes, r.read) refl

      header : verify_header codec now h b ≡ (if is_over c now then inl expired else inr c)
      header =
          rw (verify_header, lawful.decodes lawful.header, lawful.header_read, eq_refl hs256) claims

      checks :
          verify_parts codec ti now (h, b, sig) ≡ (if is_over c now then inl expired else inr c)
      checks = rw (verify_parts, lawful.decodes sum, eq_refl sum) header

  -- Issue makes a token of a principal whose claims JSON reads back, without white space, and Verify with the same key gives
  -- these claims at any time before they are over, and the error `expired` from then on.
  pub verify-issue :
      (ti : TokenIssuer) (now later : Time) (p : Principal)
      → Readable codec (claims_of ti now p)
      → (token : Str) × (issue codec ti now p ≡ some token)
        × Compact token
        × (verify codec ti later token ≡ (
            if is_over (claims_of ti now p) later then inl expired else inr (claims_of ti now p)))
  unfolding issue
  verify-issue ti now later p r = (
    token_of ti r.bytes,
    sign-token_of ti (claims_of ti now p) r,
    token_of-Compact ti r.bytes,
    verify-token_of ti (claims_of ti now p) r later,
  )
