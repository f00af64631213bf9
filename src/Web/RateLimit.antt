-- ===== src/Web/RateLimit.antt =====
-- pkg/web/ratelimit.go: the token buckets of the clients. A bucket is held by pointer in the map only, so
-- a change through the pointer is a `put`; `now` is the clock's value.
pub mod Bursts
use neurosentry.Common.{
  Bool, Floats, List, Map, Option, Str, Time, [], false, get, if◌then◌else◌, int_eq, ltb_ℤ, nat_eq,
  none, not, pos, put, retain, second, some, str_eq, sub, true, ◌*◌, ◌∷◌,
}

module _ (fl : Floats) where
  open fl use {Float, lt, le, add, minus, mul, lit, seconds}

  pub record TokenBucket : Type 0 where
    pub tokens : Float
    pub last : Time

  pub record RateLimiter : Type 0 where
    pub buckets : Map Str TokenBucket
    pub rate : Float
    pub burst : Float
    pub last_gc : Time

  -- newRateLimiter
  unfoldable pub new_rate_limiter : Float → Float → RateLimiter
  new_rate_limiter rate burst = record {
    buckets = [];
    rate = if le rate (lit 0) then lit 50 else rate;
    burst = if le burst (lit 0) then lit 100 else burst;
    last_gc = pos 0;
  }

  -- A bucket that the collection of idle ones keeps.
  abbrev pub is_recent : Time → Str → TokenBucket → Bool
  is_recent now key b = not (ltb_ℤ (pos (5 * 60 * second)) (sub now b.last))

  -- `if now.Sub(rl.lastGC) > time.Minute { ... }`
  unfoldable pub collect : RateLimiter → Time → RateLimiter
  collect rl now =
      if ltb_ℤ (pos (60 * second)) (sub now rl.last_gc)
      then record rl { buckets = retain (is_recent now) rl.buckets; last_gc = now }
      else rl

  -- The client's bucket, full if it is new.
  abbrev pub bucket_of : RateLimiter → Time → Option TokenBucket → TokenBucket
  bucket_of rl now none = record { tokens = rl.burst; last = now }
  bucket_of rl now (some b) = b

  -- The tokens after the refill.
  unfoldable pub refilled : RateLimiter → Time → TokenBucket → Float
  refilled rl now b =
      let tokens = add b.tokens (mul (seconds (sub now b.last)) rl.rate) in
      if lt rl.burst tokens then rl.burst else tokens

  -- The part of allow from the refill on.
  unfoldable pub take_token : RateLimiter → Time → Str → TokenBucket → RateLimiter × Bool
  unfolding refilled
  take_token rl now key b =
      let tokens = refilled rl now b in
      if lt tokens (lit 1)
      then (
        record rl { buckets = put rl.buckets key (record { tokens = tokens; last = now }) },
        false,
      )
      else (
        record rl {
          buckets = put rl.buckets key (record { tokens = minus tokens (lit 1); last = now });
        },
        true,
      )

  -- allow
  unfoldable pub allow : RateLimiter → Time → Str → RateLimiter × Bool
  unfolding collect take_token
  allow rl now key =
      let rl' = collect rl now in take_token rl' now key (bucket_of rl' now (get rl'.buckets key))

  unfoldable pub allow_all : RateLimiter → List (Time × Str) → RateLimiter
  unfolding allow
  allow_all rl [] = rl
  allow_all rl ((now, key) ∷ rs) = allow_all (allow rl now key).0 rs
