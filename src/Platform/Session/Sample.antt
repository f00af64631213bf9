-- ===== src/Platform/Session/Sample.antt =====
-- Stand-ins for the packages that pkg/platform calls, and a store with two users, for the concrete runs.
use neurosentry.Common.{
  All, List, Str, Time, [], ap, ap₂, arith, false, if◌then◌else◌, int_eq, is_space, length, nat_eq,
  pos, refl, second, some, str, str_eq, suc, zero, ℕ, ◌*◌, ◌++◌, ◌+◌, ◌-◌, ◌==◌, ◌∷◌, ◌≡◌,
}
use neurosentry.Platform.Rbac.{Principal, new_principal}
use neurosentry.Platform.Users.{Ref, User, UserStore, new, user_active}
use neurosentry.Platform.Users.Passwords.{hash_len}
use neurosentry.Platform.Users.Held.{Call, creates, run}
use neurosentry.Platform.Users.Provider.{Credentials, authenticate, principal_of}
use neurosentry.Platform.Tokens.{Claims, Codec, TokenIssuer, claims_of, hs256, new_token_issuer}
use neurosentry.Platform.Tokens.Split.{Free}
use neurosentry.Platform.Tokens.Signed.{Lawful, Readable}
use neurosentry.Platform.Session.{Authenticator, new_authenticator}

-- A hash that is its argument, and a sum of 32 zero bytes.
abbrev pub plain : Str → Str
plain s = s

abbrev pub zeros : ℕ → Str
zeros zero = []
zeros (suc n) = 0 ∷ zeros n

abbrev pub zero_sum : Str → Str → Str
zero_sum key message = zeros 32

pub zero_sum-sized : (key message : Str) → length (zero_sum key message) ≡ hash_len
zero_sum-sized key message = refl

abbrev pub shared_key : Str
shared_key = str "nsk_1"

-- Ann and Bob hold the same key.
abbrev pub ann : User
ann = record {
  id = str "usr_ann";
  tenant_id = str "ten_1";
  email = str "ann@x.io";
  username = str "ann";
  roles = str "viewer" ∷ [];
  status = user_active;
  created_at = pos 5;
  password_hash = [];
  password_salt = [];
  api_key_hashes = shared_key ∷ [];
}

abbrev pub bob : User
bob = record ann { id = str "usr_bob"; email = str "bob@x.io"; username = str "bob" }

-- Ann at 0, Bob elsewhere.
abbrev pub people : Ref → User
people r = if r == 0 then ann else bob

abbrev pub signups : List Call
signups = creates (str "01") (pos 5) 0 ∷ creates (str "02") (pos 6) 1 ∷ []

abbrev pub store : UserStore
store = run (new people) signups

abbrev pub by_shared_key : Credentials
by_shared_key = record {
  tenant_id = [];
  email = [];
  username = [];
  password = [];
  api_key = shared_key;
  id_token = [];
}

abbrev pub bob_principal : Principal
bob_principal = principal_of bob

abbrev pub issuer : TokenIssuer
issuer = new_token_issuer (str "k") (str "neurosentry") (pos 0)

abbrev pub noon : Time
noon = pos (63000000000 * second)

abbrev pub bob_claims : Claims
bob_claims = claims_of issuer noon bob_principal

abbrev pub shifted : Str → Str
shifted [] = []
shifted (c ∷ s) = (c + 100) ∷ shifted s

abbrev pub unshifted : Str → Str
unshifted [] = []
unshifted (c ∷ s) = (c - 100) ∷ unshifted s

-- Base64 is a shift of the bytes; JSON knows one header and writes of Bob's claims only the subject.
abbrev pub toy : Codec
toy = record {
  b64 = shifted;
  unb64 = λ s. some (unshifted s);
  marshal_header = λ h. some h.alg;
  marshal_claims = λ c. some c.subject;
  unmarshal_header = λ s. some (record { alg = s; typ = str "JWT" });
  unmarshal_claims = λ s. some (record bob_claims { subject = s });
  hmac = λ k m. k ++ m;
}

unshifted-shifted : (s : Str) → unshifted (shifted s) ≡ s
unshifted-shifted [] = refl
unshifted-shifted (c ∷ s) = ap₂ ◌∷◌ (omega arith) (unshifted-shifted s)

shifted_dotless : (s : Str) → Free b'.' (shifted s)
shifted_dotless [] = tt
shifted_dotless (c ∷ s) = (ground arith, shifted_dotless s)

shifted_spaceless : (s : Str) → All (λ c. is_space c ≡ false) (shifted s)
shifted_spaceless [] = tt
shifted_spaceless (c ∷ s) = (ground arith, shifted_spaceless s)

pub toy_lawful : Lawful toy
toy_lawful = record {
  decodes = λ s. ap some (unshifted-shifted s);
  dotless = shifted_dotless;
  spaceless = shifted_spaceless;
  header = hs256;
  header_written = refl;
  header_read = refl;
}

pub toy-Readable : Readable toy bob_claims
unfolding claims_of principal_of new_principal
toy-Readable = record { bytes = str "usr_bob"; written = refl; read = refl }

abbrev pub said_once : Str
said_once = shifted hs256 ++ b'.' ∷ shifted (str "usr_bob")

abbrev pub bob_token : Str
bob_token = said_once ++ b'.' ∷ shifted (str "k" ++ said_once)

abbrev pub server : Authenticator
server = new_authenticator issuer (some (str "local", authenticate plain zero_sum store))
