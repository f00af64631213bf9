-- ===== src/Gateway/Examples.antt =====
-- Concrete runs of pkg/aigateway/quota.go.
use neurosentry.Common.{
  List, Str, [], arith, get, int_eq, nat_eq, pos, put, refl, second, str, str_beq, str_eq, ◌*◌,
  ◌+ℤ◌, ◌∷◌, ◌≤◌,
}
use neurosentry.Gateway.Quota.{Quota, QuotaManager, is_over, new, set_quota}
use neurosentry.Gateway.Quota.Rate.{Call, asks, granted, rate_limit, settles}

abbrev acme : Str
acme = str "acme"

-- Two requests a minute, 100 tokens a day.
abbrev small : Quota
small = record { max_requests_per_min = pos 2; max_tokens_per_day = pos 100 }

abbrev manager : QuotaManager
manager = set_quota new acme small

abbrev other : Str
other = str "other"

abbrev calls : List Call
calls =
    asks (pos (2 * second)) acme (pos 10)
    ∷ asks (pos (2 * second)) other (pos 10)
    ∷ settles acme (pos 10) (pos 7)
    ∷ asks (pos (3 * second)) acme (pos 10)
    ∷ []

rate_limit_example : granted manager acme (asks (pos second) acme (pos 10) ∷ calls) ≤ 2
unfolding set_quota new get put str_beq is_over ◌+ℤ◌
rate_limit_example =
    rate_limit acme small 2 refl (omega arith) (pos second) manager (pos 10) calls (omega arith)
      refl refl (omega arith, (omega arith, (tt, (omega arith, tt))))
