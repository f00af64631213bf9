-- ===== src/Web/Examples.antt =====
-- A concrete run of pkg/web/ratelimit.go, with floats that are whole numbers.
use neurosentry.Common.{
  Floats, List, Str, Time, [], arith, false, get, int_eq, leb, ltb, nat_eq, pos, pos_part, put,
  refl, retain, second, str, str_beq, str_eq, sub, ℕ, ◌*◌, ◌+◌, ◌-ℤ◌, ◌-◌, ◌/◌, ◌∷◌, ◌≡◌,
}
use neurosentry.Web.RateLimit.{
  TokenBucket, allow, allow_all, collect, new_rate_limiter, refilled, take_token,
}
use neurosentry.Web.RateLimit.Bursts.{allow_all_bound}

abbrev numbers : Floats
numbers = record {
  Float = ℕ;
  lt = ltb;
  le = leb;
  add = ◌+◌;
  minus = ◌-◌;
  mul = ◌*◌;
  lit = λ n. n;
  seconds = λ d. pos_part d / second;
}

abbrev two_requests : List (Time × Str)
two_requests = (pos (100 * second), str "a") ∷ (pos (101 * second), str "a") ∷ []

abbrev left_over : TokenBucket numbers
left_over = record { tokens = 4; last = pos (101 * second) }

irreflexive : (x : ℕ) → ltb x x ≡ false
irreflexive x = ground arith

spending : (x y : ℕ) → ltb x y ≡ false → ltb x (y - 1) ≡ false
spending x y h = ground arith

allow_all_bound_example : ltb (new_rate_limiter numbers 2 5).burst left_over.tokens ≡ false
unfolding allow_all allow collect take_token refilled new_rate_limiter get put retain str_beq sub
    ◌-ℤ◌
allow_all_bound_example =
    allow_all_bound numbers irreflexive spending 2 5 two_requests (str "a") left_over refl
