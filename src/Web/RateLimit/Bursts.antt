-- ===== src/Web/RateLimit/Bursts.antt =====
-- pkg/web/ratelimit.go: no client saves up more than a burst.
use neurosentry.Common.{
  Bool, Floats, List, Map, Option, Str, Time, [], false, get, if_cases, int_eq, ltb_ℤ, nat_eq, none,
  pos, put, refl, retain, second, some, str_eq, sub, subst, ◌*◌, ◌==◌, ◌∙◌, ◌∷◌, ◌≡◌,
}
use neurosentry.Web.RateLimit.{
  RateLimiter, TokenBucket, allow, allow_all, collect, is_recent, new_rate_limiter, refilled,
  take_token,
}

module _ {V : Type 0} (Q : V → Type 0) where
  -- Every value of the map has the property.
  abbrev AllValues : Map Str V → Type 0
  AllValues [] = Unit
  AllValues ((k, v) ∷ m) = Q v × AllValues m

  put-AllValues : (m : Map Str V) (k : Str) (v : V) → Q v → AllValues m → AllValues (put m k v)
  unfolding put
  put-AllValues [] k v q h = (q, tt)
  put-AllValues ((j, w) ∷ m) k v q h =
      if_cases AllValues (j == k) _ _ (λ _. (q, h.1)) (λ _. (h.0, put-AllValues m k v q h.1))

  retain-AllValues : (p : Str → V → Bool) (m : Map Str V) → AllValues m → AllValues (retain p m)
  unfolding retain
  retain-AllValues p [] h = tt
  retain-AllValues p ((j, w) ∷ m) h =
      if_cases AllValues (p j w) _ _ (λ _. (h.0, retain-AllValues p m h.1))
        (λ _. retain-AllValues p m h.1)

  -- A value that is not there has the property too.
  abbrev Lacking : Option V → Type 0
  Lacking none = Unit
  Lacking (some v) = Q v

  get-AllValues : (m : Map Str V) (k : Str) → AllValues m → Lacking (get m k)
  unfolding get
  get-AllValues [] k h = tt
  get-AllValues ((j, w) ∷ m) k h =
      if_cases Lacking (j == k) _ _ (λ _. h.0) (λ _. get-AllValues m k h.1)

module _ (fl : Floats) where
  open fl use {lt, minus, lit}

  -- No bucket holds more than the burst.
  abbrev Capped : RateLimiter fl → Type 0
  Capped rl = AllValues (λ (b : TokenBucket fl). lt rl.burst b.tokens ≡ false) rl.buckets

  -- What a call keeps.
  record Good (rl next : RateLimiter fl) : Type 0 where
    capped : Capped next
    size : next.burst ≡ rl.burst

  module _ (irreflexive : (x : Floats.Float fl) → lt x x ≡ false)
      (spending : (x y : Floats.Float fl) → lt x y ≡ false → lt x (minus y (lit 1)) ≡ false) where
    refilled-le :
        (rl : RateLimiter fl) (now : Time) (b : TokenBucket fl)
        → lt rl.burst (refilled fl rl now b) ≡ false
    unfolding refilled
    refilled-le rl now b =
        if_cases (λ t. lt rl.burst t ≡ false) (lt rl.burst _) _ _ (λ _. irreflexive rl.burst)
          (λ h. h)

    collect-Good : (rl : RateLimiter fl) (now : Time) → Capped rl → Good rl (collect fl rl now)
    unfolding collect
    collect-Good rl now h =
        if_cases (Good rl) (ltb_ℤ (pos (60 * second)) (sub now rl.last_gc)) _ _
          (λ _. record { capped = retain-AllValues _ (is_recent fl now) rl.buckets h; size = refl })
          (λ _. record { capped = h; size = refl })

    put-Capped :
        (rl : RateLimiter fl) (key : Str) (b : TokenBucket fl)
        → lt rl.burst b.tokens ≡ false
        → Capped rl
        → Capped (record rl { buckets = put rl.buckets key b })
    put-Capped rl key b low h = put-AllValues _ rl.buckets key b low h

    take_token-Good :
        (rl : RateLimiter fl) (now : Time) (key : Str) (b : TokenBucket fl)
        → Capped rl
        → Good rl (take_token fl rl now key b).0
    unfolding take_token
    take_token-Good rl now key b h =
        if_cases (λ (r : RateLimiter fl × Bool). Good rl r.0) (lt (refilled fl rl now b) (lit 1)) _
          _ (λ _. record { capped = put-Capped rl key _ (refilled-le rl now b) h; size = refl })
          (λ _. record {
            capped = put-Capped rl key _ (spending rl.burst _ (refilled-le rl now b)) h;
            size = refl;
          })

    allow-Good :
        (rl : RateLimiter fl) (now : Time) (key : Str) → Capped rl → Good rl (allow fl rl now key).0
    unfolding allow
    allow-Good rl now key h =
        let one = collect-Good rl now h in
        let two = take_token-Good (collect fl rl now) now key _ one.capped in
        record { capped = two.capped; size = two.size ∙ one.size }

    allow_all-Good :
        (rl : RateLimiter fl) (rs : List (Time × Str)) → Capped rl → Good rl (allow_all fl rl rs)
    unfolding allow_all
    allow_all-Good rl [] h = record { capped = h; size = refl }
    allow_all-Good rl ((now, key) ∷ rs) h =
        let one = allow-Good rl now key h in
        let rest = allow_all-Good (allow fl rl now key).0 rs one.capped in
        record { capped = rest.capped; size = rest.size ∙ one.size }

    -- From a new limiter, whatever requests come at whatever times, no client's bucket ever holds more
    -- than the burst, if the floats are such that no number is less than itself and that taking one
    -- from a number that is not above a bound leaves it so.
    pub allow_all_bound :
        (rate burst : Floats.Float fl) (rs : List (Time × Str)) (key : Str) (b : TokenBucket fl)
        → get (allow_all fl (new_rate_limiter fl rate burst) rs).buckets key ≡ some b
        → lt (new_rate_limiter fl rate burst).burst b.tokens ≡ false
    allow_all_bound rate burst rs key b e =
        let g =
          allow_all-Good (new_rate_limiter fl rate burst) rs (unfold new_rate_limiter in tt) in
        subst (λ m. lt m b.tokens ≡ false) g.size
          (subst
            (Lacking (λ (x : TokenBucket fl).
              lt (allow_all fl (new_rate_limiter fl rate burst) rs).burst x.tokens ≡ false))
            e (get-AllValues _ _ key g.capped))
