-- ===== src/Correlate/Builtin/Ranges.antt =====
-- pkg/correlate/rules.go: which destinations are external.
use neurosentry.Common.{
  Bool, List, [], any, arith, eq_iff, false, if◌then◌else◌, inl, inr, int_eq, is_empty, nat_beq,
  nat_eq, not, refl, some, str, str_eq, sym, true, ℕ, ◌*◌, ◌+◌, ◌-◌, ◌/◌, ◌<◌, ◌==◌, ◌^◌, ◌↔◌, ◌∙◌,
  ◌∷◌, ◌≡◌, ◌⊎◌,
}
use neurosentry.Correlate.{Signal, attr}
use neurosentry.Correlate.Predicates.{
  Addresses, Ip4, dst_is_external, is_local, is_public_ip, is_public_ip4,
}

-- A network: its first address, as a number, and the number of bits that its addresses share.
abbrev pub Prefix : Type 0
Prefix = Ip4 × ℕ

-- The address as a number of 32 bits.
abbrev pub number : Ip4 → ℕ
number a = ((a.b0 * 256 + a.b1) * 256 + a.b2) * 256 + a.b3

abbrev pub ip4 : ℕ → ℕ → ℕ → ℕ → Ip4
ip4 a b c d = record { b0 = a; b1 = b; b2 = c; b3 = d }

-- The address is in the network: the bits that the network fixes are the same.
abbrev pub in_prefix : Ip4 → Prefix → Bool
in_prefix a (net, bits) = nat_beq (number a / 2 ^ (32 - bits)) (number net / 2 ^ (32 - bits))

-- The private networks of RFC 1918, and the loopback network.
abbrev pub private_prefixes : List Prefix
private_prefixes =
    (ip4 10 0 0 0, 8) ∷ (ip4 172 16 0 0, 12) ∷ (ip4 192 168 0 0, 16) ∷ (ip4 127 0 0 0, 8) ∷ []

-- The four numbers are bytes.
pub record IsAddress (a : Ip4) : Type 0 where
  pub small0 : a.b0 < 256
  pub small1 : a.b1 < 256
  pub small2 : a.b2 < 256
  pub small3 : a.b3 < 256

top8 :
    (a b c d : ℕ)
    → b < 256
    → c < 256
    → d < 256
    → (((a * 256 + b) * 256 + c) * 256 + d) / 16777216 ≡ a
top8 a b c d hb hc hd = omega arith

top12 :
    (a b c d : ℕ)
    → b < 256
    → c < 256
    → d < 256
    → (((a * 256 + b) * 256 + c) * 256 + d) / 1048576 ≡ a * 16 + b / 16
top12 a b c d hb hc hd = omega arith

top16 :
    (a b c d : ℕ) → c < 256 → d < 256 → (((a * 256 + b) * 256 + c) * 256 + d) / 65536 ≡ a * 256 + b
top16 a b c d hc hd = omega arith

public_ip4_iff :
    (a : Ip4) → IsAddress a → is_public_ip4 a ≡ not (any (in_prefix a) private_prefixes)
unfolding is_public_ip4
public_ip4_iff a h =
    rw
      (
        top8 a.b0 a.b1 a.b2 a.b3 h.small1 h.small2 h.small3,
        top12 a.b0 a.b1 a.b2 a.b3 h.small1 h.small2 h.small3,
        top16 a.b0 a.b1 a.b2 a.b3 h.small2 h.small3,
      )
      (ground (arith, h.small1))

external_cases :
    (t l p : Bool)
    → ((if t then true else if l then false else not p) ≡ true)
      ↔ ((t ≡ true) ⊎ ((l ≡ false) × (p ≡ false)))
external_cases true l p = (λ e. inl refl, λ c. refl)
external_cases false true p = (λ e. cc, λ c. elim c [ inl e ↦ cc | inr (e, f) ↦ cc ])
external_cases false false true = (λ e. cc, λ c. elim c [ inl e ↦ cc | inr (e, f) ↦ cc ])
external_cases false false false = (λ e. inr (refl, refl), λ c. refl)

-- For a destination that is an IPv4 address: it counts as external exactly if the signal says so, or if
-- the address is neither loopback or link-local, as package net tells, nor in one of the networks
-- 10.0.0.0/8, 172.16.0.0/12, 192.168.0.0/16 and 127.0.0.0/8.
pub dst_is_external_iff :
    (net : Addresses) (s : Signal) (ip : net.Ip) (a : Ip4)
    → is_empty (attr s (str "dst")) ≡ false
    → net.parse_ip (attr s (str "dst")) ≡ some ip
    → net.to4 ip ≡ some a
    → IsAddress a
    → (dst_is_external net s ≡ true) ↔ (
        (attr s (str "external") ≡ str "true")
        ⊎ ((is_local net ip ≡ false) × (any (in_prefix a) private_prefixes ≡ false)))
unfolding dst_is_external is_public_ip
dst_is_external_iff net s ip a full parsed four small = (
  λ e. elim ((external_cases tagged (is_local net ip) private).0 (sym computed ∙ e)) [
    | inl t ↦ inl ((eq_iff (attr s (str "external")) (str "true")).0 t)
    | inr c ↦ inr c
  ],
  λ c.
      computed
      ∙ (external_cases tagged (is_local net ip) private).1 (elim c [
        | inl t ↦ inl ((eq_iff (attr s (str "external")) (str "true")).1 t)
        | inr d ↦ inr d
      ]),
)
  where
    tagged : Bool
    tagged = attr s (str "external") == str "true"

    private : Bool
    private = any (in_prefix a) private_prefixes

    computed :
        dst_is_external net s
        ≡ (if tagged then true else if is_local net ip then false else not private)
    computed = rw (dst_is_external, full, parsed, four, public_ip4_iff a small) refl
