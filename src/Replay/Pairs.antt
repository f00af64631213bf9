-- ===== src/Replay/Pairs.antt =====
-- pkg/replay/auditd.go: parseKV reads back what is written.
use neurosentry.Common.{
  All, List, Map, Option, Str, [], ap, arith, eq_refl, false, int_eq, length, length-append,
  nat_beq, nat_eq, none, put, refl, some, str_eq, subst, suc, sym, zero, ℕ, ◌++◌, ◌∙◌, ◌∷◌, ◌≡◌,
  ◌≤◌,
}
use neurosentry.Replay.{cut, kv_value, pairs_from, parse_kv, skip_spaces}

-- A key begins with something else than a space and has no `=`; a value has no quote.
pub record IsPair (x : Str × Str) : Type 0 where
  pub head : ℕ
  pub tail : Str
  pub spelled : x.0 ≡ head ∷ tail
  pub unspaced : nat_beq head b' ' ≡ false
  pub keyed : All (λ c. nat_beq c b'=' ≡ false) x.0
  pub unquoted : All (λ c. nat_beq c b'"' ≡ false) x.1

-- A space, and then key="value", for each pair.
abbrev pub print_kv : List (Str × Str) → Str
print_kv [] = []
print_kv (x ∷ xs) = b' ' ∷ (x.0 ++ (b'=' ∷ b'"' ∷ (x.1 ++ (b'"' ∷ print_kv xs))))

-- The map that has the pairs, the later ones over the earlier ones.
abbrev pub put_all : Map Str Str → List (Str × Str) → Map Str Str
put_all m [] = m
put_all m (x ∷ xs) = put_all (put m x.0 x.1) xs

cut-free :
    (b : ℕ) (s t : Str) → All (λ c. nat_beq c b ≡ false) s → cut b (s ++ (b ∷ t)) ≡ some (s, t)
unfolding cut
cut-free b [] t h = rw (eq_refl b) refl
cut-free b (c ∷ s) t h = rw (h.0, cut-free b s t h.1) refl

kv_value-quoted :
    (v t : Str)
    → All (λ c. nat_beq c b'"' ≡ false) v
    → kv_value (b'"' ∷ (v ++ (b'"' ∷ t))) ≡ some (v, t)
unfolding kv_value
kv_value-quoted v t h = cut-free b'"' v t h

skip_spaces_lem : (x : Str × Str) (s : Str) → IsPair x → skip_spaces (b' ' ∷ (x.0 ++ s)) ≡ x.0 ++ s
unfolding skip_spaces
skip_spaces_lem x s h =
    subst (λ k. skip_spaces (b' ' ∷ (k ++ s)) ≡ k ++ s) (sym h.spelled) (rw h.unspaced refl)

-- One round takes one pair.
pairs_round :
    (n : ℕ) (kv : Map Str Str) (x : Str × Str) (t : Str)
    → IsPair x
    → pairs_from (suc n) kv (b' ' ∷ (x.0 ++ (b'=' ∷ b'"' ∷ (x.1 ++ (b'"' ∷ t)))))
      ≡ pairs_from n (put kv x.0 x.1) t
unfolding pairs_from
pairs_round n kv x t h =
    ap (λ o. taken o) (ap (cut b'=') (skip_spaces_lem x _ h) ∙ cut-free b'=' x.0 _ h.keyed)
    ∙ ap (λ o. stored o) (kv_value-quoted x.1 t h.unquoted)
  where
    stored : Option (Str × Str) → Map Str Str
    stored o = elim o [ none ↦ kv | some (v, rest) ↦ pairs_from n (put kv x.0 v) rest ]

    taken : Option (Str × Str) → Map Str Str
    taken o = elim o [
      | none ↦ kv
      | some (key, u) ↦ elim (kv_value u) [
        | none ↦ kv
        | some (v, rest) ↦ pairs_from n (put kv key v) rest
      ]
    ]

pairs_from-print_kv :
    (n : ℕ) (kv : Map Str Str) (xs : List (Str × Str))
    → All IsPair xs
    → length xs ≤ n
    → pairs_from n kv (print_kv xs) ≡ put_all kv xs
unfolding pairs_from skip_spaces cut
pairs_from-print_kv zero kv [] h e = refl
pairs_from-print_kv (suc n) kv [] h e = refl
pairs_from-print_kv zero kv (x ∷ xs) h e = absurd (omega arith)
pairs_from-print_kv (suc n) kv (x ∷ xs) h e =
    pairs_round n kv x (print_kv xs) h.0
    ∙ pairs_from-print_kv n (put kv x.0 x.1) xs h.1 (omega (arith, e))

-- The text of a list of pairs, with their values in quotes, is read back as the map of these pairs, where
-- the last value of a key counts. A key begins with something else than a space and has no `=`, and a
-- value has no quote.
pub parse_kv-print_kv :
    (xs : List (Str × Str)) → All IsPair xs → parse_kv (print_kv xs) ≡ put_all [] xs
unfolding parse_kv
parse_kv-print_kv xs h = pairs_from-print_kv (length (print_kv xs)) [] xs h (enough xs)
  where
    enough : (ys : List (Str × Str)) → length ys ≤ length (print_kv ys)
    enough [] = omega arith
    enough (y ∷ ys) = omega (
      arith,
      enough ys,
      length-append y.0 (b'=' ∷ b'"' ∷ (y.1 ++ (b'"' ∷ print_kv ys))),
      length-append y.1 (b'"' ∷ print_kv ys),
    )
