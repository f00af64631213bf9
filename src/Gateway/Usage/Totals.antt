-- ===== src/Gateway/Usage/Totals.antt =====
-- pkg/aigateway/usage.go: what the account of a tenant adds up to.
use neurosentry.Common.{
  Bool-cases, List, Map, Str, [], ap, arith, eq_iff, false, get, get-put-other, get-put-same, inc64,
  inc64-wrap64, inl, inr, int_eq, keep, length, nat_eq, negsuc, none, pos, refl, str_eq, subst, suc,
  sym, wrap64, ℕ, ℤ, ◌+ℤ◌, ◌+◌, ◌==◌, ◌∙◌, ◌∷◌, ◌≡◌,
}
use neurosentry.Gateway.Usage.{
  ModelPricing, Money, UsageRecord, UsageTracker, accumulated, or_no_usage, price_for, record_usage,
  usage,
}

wrap64-add : (a b : ℤ) → wrap64 (wrap64 a +ℤ b) ≡ wrap64 (a +ℤ b)
unfolding wrap64 ◌+ℤ◌
wrap64-add (pos m) (pos n) = ground arith
wrap64-add (pos m) (negsuc n) = ground arith
wrap64-add (negsuc m) (pos n) = ground arith
wrap64-add (negsuc m) (negsuc n) = ground arith

module _ (money : Money) where
  -- A call of Record, with the order in which it meets the prices.
  pub record Request : Type 0 where
    pub order : Map Str (ModelPricing money)
    pub tenant : Str
    pub model : Str
    pub prompt : ℤ
    pub completion : ℤ

  pub record_all : UsageTracker money → List Request → UsageTracker money
  record_all t [] = t
  record_all t (x ∷ xs) =
      record_all (record_usage money t x.order x.tenant x.model x.prompt x.completion) xs

  -- The sum of what the requests have of something, added to a start, as a mathematical integer.
  pub total : (Request → ℤ) → ℤ → List Request → ℤ
  total what start [] = start
  total what start (x ∷ xs) = total what (start +ℤ what x) xs

  abbrev pub own : Str → List Request → List Request
  own tenant xs = keep (λ x. x.tenant == tenant) xs

  -- The account shows these numbers, as int64 holds them.
  abbrev pub Shows : UsageRecord money → ℕ → ℤ → ℤ → Type 0
  Shows rec n prompt completion =
      (rec.requests ≡ wrap64 (pos n))
      × (rec.prompt_tokens ≡ wrap64 prompt)
      × (rec.completion_tokens ≡ wrap64 completion)

  accumulated-Shows :
      (p : ModelPricing money) (rec : UsageRecord money) (n : ℕ) (a b prompt completion : ℤ)
      → Shows rec n a b
      → Shows (accumulated money p prompt completion rec) (n + 1) (a +ℤ prompt) (b +ℤ completion)
  unfolding accumulated
  accumulated-Shows p rec n a b prompt completion (h, k, l) = (
    ap inc64 h ∙ inc64-wrap64 n,
    ap (λ z. wrap64 (z +ℤ prompt)) k ∙ wrap64-add a prompt,
    ap (λ z. wrap64 (z +ℤ completion)) l ∙ wrap64-add b completion,
  )

  module _ (t : UsageTracker money) (x : Request) where
    abbrev next : UsageTracker money
    next = record_usage money t x.order x.tenant x.model x.prompt x.completion

    abbrev charged : UsageRecord money → UsageRecord money
    charged rec =
        accumulated money (price_for money t.pricing x.order x.model) x.prompt x.completion rec

    usage-own : usage money next x.tenant ≡ charged (usage money t x.tenant)
    unfolding usage record_usage
    usage-own =
        ap (or_no_usage money)
          (get-put-same t.by_tenant x.tenant (charged (usage money t x.tenant)))

    usage-other :
        (tenant : Str)
        → (x.tenant == tenant) ≡ false
        → usage money next tenant ≡ usage money t tenant
    unfolding usage record_usage
    usage-other tenant miss =
        ap (or_no_usage money)
          (get-put-other t.by_tenant x.tenant tenant (charged (usage money t x.tenant)) miss)

  record_all-Shows :
      (t : UsageTracker money) (tenant : Str) (xs : List Request) (n : ℕ) (a b : ℤ)
      → Shows (usage money t tenant) n a b
      → Shows
          (usage money (record_all t xs) tenant)
          (n + length (own tenant xs))
          (total (λ x. x.prompt) a (own tenant xs))
          (total (λ x. x.completion) b (own tenant xs))
  unfolding record_all total
  record_all-Shows t tenant [] n a b h =
      subst (λ k. Shows (usage money t tenant) k a b) (omega arith) h
  record_all-Shows t tenant (x ∷ xs) n a b h = elim (Bool-cases (x.tenant == tenant)) [
    | inr miss ↦ rw miss (
        record_all-Shows (next t x) tenant xs n a b
          (subst (λ u. Shows u n a b) (sym (usage-other t x tenant miss)) h))
    | inl hit ↦
        let e = (eq_iff x.tenant tenant).0 hit in
        let mine : Shows (usage money (next t x) tenant) (n + 1) (a +ℤ x.prompt)
            (b +ℤ x.completion) =
          subst
            (λ k.
              Shows (usage money t k) n a b
              → Shows (usage money (next t x) k) (n + 1) (a +ℤ x.prompt) (b +ℤ x.completion))
            e
            (λ h'.
              subst (λ u. Shows u (n + 1) (a +ℤ x.prompt) (b +ℤ x.completion)) (sym (usage-own t x))
                (accumulated-Shows _ (usage money t x.tenant) n a b x.prompt x.completion h'))
            h in
        let rest =
          record_all-Shows (next t x) tenant xs (n + 1) (a +ℤ x.prompt) (b +ℤ x.completion) mine in
        let count : n + 1 + length (own tenant xs) ≡ n + suc (length (own tenant xs)) =
          omega arith in
        rw hit (
          subst
            (λ k.
              Shows (usage money (record_all (next t x) xs) tenant) k
                (total (λ x. x.prompt) (a +ℤ x.prompt) (own tenant xs))
                (total (λ x. x.completion) (b +ℤ x.completion) (own tenant xs)))
            count rest)
  ]

  -- For a tenant that has no record yet, Usage reports after any requests of all tenants the number of
  -- the tenant's own requests and the sums of their prompt and completion tokens, modulo 2^64, whatever
  -- the prices, the order in which each call meets them, and the other tenants' requests in between.
  pub usage-record_all :
      (t : UsageTracker money) (tenant : Str) (xs : List Request)
      → get t.by_tenant tenant ≡ none
      → Shows
          (usage money (record_all t xs) tenant)
          (length (own tenant xs))
          (total (λ x. x.prompt) (pos 0) (own tenant xs))
          (total (λ x. x.completion) (pos 0) (own tenant xs))
  unfolding usage wrap64
  usage-record_all t tenant xs fresh =
      subst
        (λ k.
          Shows (usage money (record_all t xs) tenant) k
            (total (λ x. x.prompt) (pos 0) (own tenant xs))
            (total (λ x. x.completion) (pos 0) (own tenant xs)))
        zero_add (record_all-Shows t tenant xs 0 (pos 0) (pos 0) (rw fresh (refl, refl, refl)))
    where
      zero_add : 0 + length (own tenant xs) ≡ length (own tenant xs)
      zero_add = omega arith
