-- ===== src/Gateway/Usage/Prices.antt =====
-- pkg/aigateway/usage.go: the price of a model that is in the table only by a prefix.
use neurosentry.Common.{
  Str, [], false, get, has_prefix, int_eq, nat_eq, refl, str_eq, true, ◌==◌, ◌∷◌, ◌≡◌,
}
use neurosentry.Gateway.Usage.{ModelPricing, Money, price_by_prefix, price_for}

module _ (money : Money) where
  -- A model that is not in the table itself, but two of whose prefixes are, has the price of the one that
  -- the iteration over the map meets first, and Go leaves that order open.
  pub price_for_order :
      (model a b : Str) (p q : ModelPricing money)
      → (a == model) ≡ false
      → (b == model) ≡ false
      → has_prefix model a ≡ true
      → has_prefix model b ≡ true
      → (price_for money ((a, p) ∷ (b, q) ∷ []) ((a, p) ∷ (b, q) ∷ []) model ≡ p)
        × (price_for money ((a, p) ∷ (b, q) ∷ []) ((b, q) ∷ (a, p) ∷ []) model ≡ q)
  unfolding price_for price_by_prefix get
  price_for_order model a b p q na nb ha hb =
      (rw (price_for, na, nb, ha) refl, rw (price_for, na, nb, hb) refl)
