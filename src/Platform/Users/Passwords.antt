-- ===== src/Platform/Users/Passwords.antt =====
-- pkg/platform/identity.go: passwords and PBKDF2. HMAC-SHA256 is an argument: `prf key message`.
use neurosentry.Common.{
  Bool, Option, Str, [], ap, arith, eq_iff, eq_refl, false, if_cases, if◌then◌else◌, int_eq, length,
  length-append, length-take, ltb, nat_beq, nat_eq, none, refl, some, str_eq, subst, suc, sym, take,
  true, xor_bits, zero, ℕ, ◌%◌, ◌*◌, ◌++◌, ◌+◌, ◌-◌, ◌/◌, ◌==◌, ◌^◌, ◌↔◌, ◌∙◌, ◌∷◌, ◌≡◌,
}
use neurosentry.Platform.Users.{User}

abbrev pub pbkdf2_iterations : ℕ
pbkdf2_iterations = 210000

abbrev pub pbkdf2_key_len : ℕ
pbkdf2_key_len = 32

-- The size of a SHA-256 sum.
abbrev pub hash_len : ℕ
hash_len = 32

-- for i := range T { T[i] ^= U[i] }
xor_into : Str → Str → Str
xor_into [] us = []
xor_into (t ∷ ts) [] = t ∷ ts
xor_into (t ∷ ts) (u ∷ us) = xor_bits 8 t u ∷ xor_into ts us

-- The four bytes of the number of a block.
block_number : ℕ → Str
block_number block =
    (block / 2 ^ 24) % 256 ∷ (block / 2 ^ 16) % 256 ∷ (block / 2 ^ 8) % 256 ∷ block % 256 ∷ []

module _ (prf : Str → Str → Str) where
  -- The rounds that are left of a block, with its T and U.
  mix : Str → ℕ → Str → Str → Str
  unfolding xor_into
  mix password zero t u = t
  mix password (suc n) t u = mix password n (xor_into t (prf password u)) (prf password u)

  -- The blocks from `block` on.
  blocks : Str → Str → ℕ → ℕ → ℕ → Str
  unfolding mix block_number
  blocks password salt iter zero block = []
  blocks password salt iter (suc k) block =
      let t = prf password (salt ++ block_number block) in
      mix password (iter - 1) t t ++ blocks password salt iter k (block + 1)

  -- pbkdf2Key
  pub pbkdf2_key : Str → Str → ℕ → ℕ → Str
  unfolding blocks
  pbkdf2_key password salt iter key_len =
      take key_len (blocks password salt iter ((key_len + hash_len - 1) / hash_len) 1)

  -- SetPassword, with the random salt: `none` if the password is too short.
  unfoldable pub set_password : Str → User → Str → Option User
  unfolding pbkdf2_key
  set_password salt u password =
      if ltb (length password) 8
      then none
      else some (record u {
        password_salt = salt;
        password_hash = pbkdf2_key password salt pbkdf2_iterations pbkdf2_key_len;
      })

  -- CheckPassword
  unfoldable pub check_password : User → Str → Bool
  unfolding pbkdf2_key
  check_password u password =
      if nat_beq (length u.password_hash) 0
      then false
      else pbkdf2_key password u.password_salt pbkdf2_iterations pbkdf2_key_len == u.password_hash

length-xor_into : (ts us : Str) → length (xor_into ts us) ≡ length ts
unfolding xor_into
length-xor_into [] us = refl
length-xor_into (t ∷ ts) [] = refl
length-xor_into (t ∷ ts) (u ∷ us) = ap suc (length-xor_into ts us)

compared :
    (sum candidate : Str)
    → length sum ≡ 32
    → (if nat_beq (length sum) 0 then false else candidate == sum) ≡ candidate == sum
compared sum candidate h = rw h refl

module _ (prf : Str → Str → Str)
    (sized : (key message : Str) → length (prf key message) ≡ hash_len) where
  length-mix : (password : Str) (n : ℕ) (t u : Str) → length (mix prf password n t u) ≡ length t
  unfolding mix
  length-mix password zero t u = refl
  length-mix password (suc n) t u =
      length-mix password n (xor_into t (prf password u)) (prf password u)
      ∙ length-xor_into t (prf password u)

  length-blocks :
      (password salt : Str) (iter k block : ℕ)
      → length (blocks prf password salt iter k block) ≡ k * hash_len
  unfolding blocks
  length-blocks password salt iter zero block = refl
  length-blocks password salt iter (suc k) block =
      let t = prf password (salt ++ block_number block) in
      omega (
        arith,
        length-append (mix prf password (iter - 1) t t)
            (blocks prf password salt iter k (block + 1)),
        length-mix password (iter - 1) t t,
        sized password (salt ++ block_number block),
        length-blocks password salt iter k (block + 1),
      )

  -- A derived key has the length that was asked for.
  pub length-pbkdf2_key :
      (password salt : Str) (iter key_len : ℕ)
      → length (pbkdf2_key prf password salt iter key_len) ≡ key_len
  unfolding pbkdf2_key
  length-pbkdf2_key password salt iter key_len =
      length-take key_len _
        (omega (arith, length-blocks password salt iter ((key_len + hash_len - 1) / hash_len) 1))

  -- Once a password is set, the check accepts it, and accepts another one exactly if its derived key is
  -- the same. HMAC-SHA256 is any function whose sums have 32 bytes.
  pub check-set_password :
      (salt password other : Str) (u v : User)
      → set_password prf salt u password ≡ some v
      → (check_password prf v password ≡ true)
        × ((check_password prf v other ≡ true) ↔ (
            pbkdf2_key prf other salt pbkdf2_iterations pbkdf2_key_len
            ≡ pbkdf2_key prf password salt pbkdf2_iterations pbkdf2_key_len))
  unfolding check_password set_password
  check-set_password salt password other u v h =
      if_cases (λ (o : Option User). o ≡ some v → Accepts v) (ltb (length password) 8) _ _
        (λ _ e. cc) (λ _ e. subst Accepts (of_some e) accepts) h
    where
      derived : Str → Str
      derived q = pbkdf2_key prf q salt pbkdf2_iterations pbkdf2_key_len

      Accepts : User → Type 0
      Accepts w =
          (check_password prf w password ≡ true)
          × ((check_password prf w other ≡ true) ↔ (derived other ≡ derived password))

      of_some : {w : User} → some w ≡ some v → w ≡ v
      of_some e = cc

      changed : User
      changed = record u { password_salt = salt; password_hash = derived password }

      checks : (q : Str) → check_password prf changed q ≡ (derived q == derived password)
      checks q =
          compared (derived password) (derived q)
            (length-pbkdf2_key password salt pbkdf2_iterations pbkdf2_key_len)

      accepts : Accepts changed
      accepts = (
        checks password ∙ eq_refl (derived password),
        (
          λ e. (eq_iff (derived other) (derived password)).0 (sym (checks other) ∙ e),
          λ e. checks other ∙ (eq_iff (derived other) (derived password)).1 e,
        ),
      )
