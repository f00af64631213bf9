-- ===== src/Platform/Tokens/Split.antt =====
-- pkg/platform/token.go: strings.Split on a token.
use mathlib.Core.List.{append_assoc}
use neurosentry.Common.{
  All, List, Str, [], ap, ap₂, eq_refl, false, if_cases, int_eq, nat_beq, nat_beq_iff, nat_eq,
  parts, refl, some, split_byte, str_eq, sym, ℕ, ◌++◌, ◌∙◌, ◌∷◌, ◌≡◌,
}
use neurosentry.Platform.Tokens.{three}

-- The byte is not in the text.
abbrev pub Free : ℕ → Str → Type 0
Free b s = All (λ c. nat_beq c b ≡ false) s

split-Free : (b : ℕ) (s : Str) → Free b s → split_byte b s ≡ (s, [])
unfolding split_byte
split-Free b [] f = refl
split-Free b (c ∷ s) f = rw (f.0, split-Free b s f.1) refl

split-append :
    (b : ℕ) (s t : Str) → Free b s → split_byte b (s ++ b ∷ t) ≡ (s, parts (split_byte b t))
unfolding split_byte
split-append b [] t f = rw (eq_refl b) refl
split-append b (c ∷ s) t f = rw (f.0, split-append b s t f.1) refl

-- Three texts without the byte, joined by it, are the three parts.
pub three-parts :
    (b : ℕ) (x y z : Str)
    → Free b x
    → Free b y
    → Free b z
    → three (parts (split_byte b ((x ++ b ∷ y) ++ b ∷ z))) ≡ some (x, y, z)
three-parts b x y z fx fy fz =
    ap (λ s. three (parts (split_byte b s))) (append_assoc x (b ∷ y) (b ∷ z)) ∙ at
  where
    at : three (parts (split_byte b (x ++ b ∷ (y ++ b ∷ z)))) ≡ some (x, y, z)
    at = rw (split-append b x (y ++ b ∷ z) fx, split-append b y z fy, split-Free b z fz) refl

-- The parts, joined by the byte.
abbrev pub joined : ℕ → Str × List Str → Str
joined b (s, []) = s
joined b (s, t ∷ ts) = s ++ b ∷ joined b (t, ts)

joined-cons : (b c : ℕ) (p : Str × List Str) → joined b (c ∷ p.0, p.1) ≡ c ∷ joined b p
joined-cons b c (s, []) = refl
joined-cons b c (s, t ∷ ts) = refl

pub joined-split : (b : ℕ) (s : Str) → joined b (split_byte b s) ≡ s
unfolding split_byte
joined-split b [] = refl
joined-split b (c ∷ s) =
    if_cases (λ (p : Str × List Str). joined b p ≡ c ∷ s) (nat_beq c b) _ _
      (λ hit. ap₂ ◌∷◌ (sym ((nat_beq_iff c b).0 hit)) (joined-split b s))
      (λ _. joined-cons b c (split_byte b s) ∙ ap (◌∷◌ c) (joined-split b s))
