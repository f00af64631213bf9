-- ===== src/Gateway/Usage/Examples.antt =====
-- Concrete runs of pkg/aigateway/usage.go.
use neurosentry.Common.{
  List, Str, [], false, get, has_prefix, int_eq, length, nat_eq, pos, refl, str, str_beq, str_eq,
  true, ℤ, ◌+ℤ◌, ◌==◌, ◌∷◌, ◌≡◌,
}
use neurosentry.Gateway.Usage.{Money, UsageTracker, usage}
use neurosentry.Gateway.Usage.Totals.{Request, Shows, own, record_all, total, usage-record_all}

-- Amounts in hundredths, without fractions.
abbrev hundredths : Money
hundredths = record {
  Float = ℤ;
  add = ◌+ℤ◌;
  mul = λ a b. a;
  div = λ a b. a;
  of_int = λ n. n;
  cents = pos;
  trunc = λ f. f;
}

abbrev fresh : UsageTracker hundredths
fresh = record { by_tenant = []; pricing = [] }

abbrev requests : List (Request hundredths)
requests =
    record {
      order = [];
      tenant = str "acme";
      model = str "o1";
      prompt = pos 10;
      completion = pos 5;
    }
    ∷ record {
      order = [];
      tenant = str "other";
      model = str "o1";
      prompt = pos 99;
      completion = pos 1;
    }
    ∷ record {
      order = [];
      tenant = str "acme";
      model = str "x";
      prompt = pos 7;
      completion = pos 2;
    }
    ∷ []

usage-record_all_example :
    Shows hundredths
      (usage hundredths (record_all hundredths fresh requests) (str "acme"))
      (length (own hundredths (str "acme") requests))
      (total hundredths (λ x. x.prompt) (pos 0) (own hundredths (str "acme") requests))
      (total hundredths (λ x. x.completion) (pos 0) (own hundredths (str "acme") requests))
unfolding get
usage-record_all_example = usage-record_all hundredths fresh (str "acme") requests refl

abbrev dated : Str
dated = str "gpt-4o-mini-2024-07-18"

prefix_run : has_prefix dated (str "gpt-4o") ≡ true
unfolding has_prefix
prefix_run = refl

longer_run : has_prefix dated (str "gpt-4o-mini") ≡ true
unfolding has_prefix
longer_run = refl

other_run : (str "gpt-4o" == dated) ≡ false
unfolding str_beq
other_run = refl

other_longer_run : (str "gpt-4o-mini" == dated) ≡ false
unfolding str_beq
other_longer_run = refl
