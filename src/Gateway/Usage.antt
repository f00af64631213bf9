-- ===== src/Gateway/Usage.antt =====
-- pkg/aigateway/usage.go: what each tenant has used, and what it costs. float64 is an argument.
pub mod Totals
pub mod Prices
mod Examples
use neurosentry.Common.{
  Map, Option, Str, [], get, has_prefix, if◌then◌else◌, inc64, int_eq, is_empty, length, nat_eq,
  none, pos, put, some, str, str_eq, wrap64, ℕ, ℤ, ◌&&◌, ◌+ℤ◌, ◌+◌, ◌/◌, ◌==◌, ◌∷◌,
}

-- float64, as the operations that the accounting uses.
pub record Money : Type 1 where
  pub Float : Type 0
  pub add : Float → Float → Float
  pub mul : Float → Float → Float
  pub div : Float → Float → Float
  -- float64(n)
  pub of_int : ℤ → Float
  -- a constant of the source, in hundredths
  pub cents : ℕ → Float
  -- int(f)
  pub trunc : Float → ℤ

-- estimateTokens
estimate_tokens : Str → ℤ
estimate_tokens text = if is_empty text then pos 0 else pos (length text / 4 + 1)

-- The object `usage` of a response.
pub record UsageEnvelope : Type 0 where
  pub prompt_tokens : ℤ
  pub completion_tokens : ℤ
  pub total_tokens : ℤ

-- parseResponseUsage, for what JSON decoding gives; `none` is ok=false.
parse_response_usage : Option UsageEnvelope → Option (ℤ × ℤ)
parse_response_usage none = none
parse_response_usage (some u) =
    if u.total_tokens == pos 0 && (u.prompt_tokens == pos 0 && u.completion_tokens == pos 0)
    then none
    else some (u.prompt_tokens, u.completion_tokens)

module _ (money : Money) where
  open money use {Float, add, mul, div, of_int, cents, trunc}

  pub record ModelPricing : Type 0 where
    pub input_per_1m : Float
    pub output_per_1m : Float

  pub record UsageRecord : Type 0 where
    pub requests : ℤ
    pub prompt_tokens : ℤ
    pub completion_tokens : ℤ
    pub cost_usd : Float

  pub record UsageTracker : Type 0 where
    pub by_tenant : Map Str UsageRecord
    pub pricing : Map Str ModelPricing

  abbrev pub price : ℕ → ℕ → ModelPricing
  price input output = record { input_per_1m = cents input; output_per_1m = cents output }

  -- defaultPricing
  default_pricing : Map Str ModelPricing
  default_pricing =
      (str "gpt-4o", price 250 1000)
      ∷ (str "gpt-4o-mini", price 15 60)
      ∷ (str "o1", price 1500 6000)
      ∷ (str "claude-3-5-sonnet", price 300 1500)
      ∷ (str "claude-opus-4", price 1500 7500)
      ∷ (str "claude-sonnet-4", price 300 1500)
      ∷ (str "gemini-2.0-flash", price 10 40)
      ∷ (str "mistral-large", price 200 600)
      ∷ (str "deepseek-chat", price 27 110)
      ∷ []

  -- fallbackPricing
  abbrev pub fallback_pricing : ModelPricing
  fallback_pricing = price 100 300

  abbrev pub no_usage : UsageRecord
  no_usage = record {
    requests = pos 0;
    prompt_tokens = pos 0;
    completion_tokens = pos 0;
    cost_usd = of_int (pos 0);
  }

  -- NewUsageTracker
  pub new_usage_tracker : UsageTracker
  unfolding default_pricing
  new_usage_tracker = record { by_tenant = []; pricing = default_pricing }

  -- SetPricing
  set_pricing : UsageTracker → Str → ModelPricing → UsageTracker
  set_pricing t model p = record t { pricing = put t.pricing model p }

  -- The loop of priceFor, over the entries in the order in which the run time picks them.
  pub price_by_prefix : Map Str ModelPricing → Str → ModelPricing
  price_by_prefix [] model = fallback_pricing
  price_by_prefix ((base, p) ∷ m) model =
      let rest = price_by_prefix m model in if has_prefix model base then p else rest

  -- priceFor, for the order in which this call's `range` meets the entries of the table.
  pub price_for : Map Str ModelPricing → Map Str ModelPricing → Str → ModelPricing
  unfolding price_by_prefix
  price_for pricing order model = elim (get pricing model) [
    | none ↦ price_by_prefix order model
    | some p ↦ p
  ]

  -- roundCost
  round_cost : Float → Float
  round_cost f = div (of_int (trunc (add (mul f (cents 100000000)) (cents 50)))) (cents 100000000)

  -- What a request costs.
  cost : ModelPricing → ℤ → ℤ → Float
  cost p prompt completion =
      add (mul (div (of_int prompt) (cents 100000000)) p.input_per_1m)
        (mul (div (of_int completion) (cents 100000000)) p.output_per_1m)

  -- The body of Record, on the record of the tenant.
  pub accumulated : ModelPricing → ℤ → ℤ → UsageRecord → UsageRecord
  unfolding round_cost cost
  accumulated p prompt completion rec = record {
    requests = inc64 rec.requests;
    prompt_tokens = wrap64 (rec.prompt_tokens +ℤ prompt);
    completion_tokens = wrap64 (rec.completion_tokens +ℤ completion);
    cost_usd = round_cost (add rec.cost_usd (cost p prompt completion));
  }

  abbrev pub or_no_usage : Option UsageRecord → UsageRecord
  or_no_usage none = no_usage
  or_no_usage (some rec) = rec

  -- Record, with the order of its `range`.
  pub record_usage : UsageTracker → Map Str ModelPricing → Str → Str → ℤ → ℤ → UsageTracker
  unfolding accumulated price_for
  record_usage t order tenant model prompt completion = record t {
    by_tenant = put t.by_tenant tenant (
        accumulated (price_for t.pricing order model) prompt completion
          (or_no_usage (get t.by_tenant tenant)));
  }

  -- Usage
  pub usage : UsageTracker → Str → UsageRecord
  usage t tenant = or_no_usage (get t.by_tenant tenant)
