-- ===== src/Middleware/RateLimit.antt =====
-- internal/middleware/ratelimit.go: token buckets. Tokens, rate and burst are float64. Instants and
-- Durations are nanoseconds; `seconds` is the method Seconds of time.Duration.
pub mod Floats
pub mod Held
pub mod Rate
pub mod RetryAfter
mod Examples
use l7rp.Base.{
  ℕ, suc, ◌+◌, ◌-◌, Bool, true, false, List, [], ◌∷◌, Option, none, some, ◌==◌, if◌then◌else◌, Str,
  str_eq, Float64,
}

abbrev pub second : ℕ
second = 1000000000

pub record Bucket (F : Type 0) : Type 0 where
  pub tokens : F
  pub last_fill : ℕ

-- The map from keys to buckets, as an association list.
pub record BucketMap (F : Type 0) : Type 0 where
  pub rps : F
  pub burst : F
  pub buckets : List (Str × Bucket F)

module _ {F : Type 0} where
  unfoldable pub new_bucket_map : F → F → BucketMap F
  new_bucket_map rps burst = record { rps = rps; burst = burst; buckets = [] }

  unfoldable pub lookup : Str → List (Str × Bucket F) → Option (Bucket F)
  lookup key [] = none
  lookup key ((k, b) ∷ rest) = if str_eq k key then some b else lookup key rest

  unfoldable pub insert : Str → Bucket F → List (Str × Bucket F) → List (Str × Bucket F)
  insert key b [] = (key, b) ∷ []
  insert key b ((k, c) ∷ rest) =
      if str_eq k key then (key, b) ∷ rest else (k, c) ∷ insert key b rest

-- What a request gets: the next handler, or 429 with Retry-After in whole seconds.
pub data Reply : Type 0 where
  served : Reply
  too_many_requests : (retry_after : ℕ) → Reply

-- RateLimit: the burst falls back to the rate, and a rate of 0 turns the limit off.
unfoldable pub limiter : (fl : Float64) → (rps burst : ℕ) → Option (BucketMap fl.F)
unfolding new_bucket_map
limiter fl rps burst =
    if rps == 0
    then none
    else some (new_bucket_map (fl.of_int rps) (fl.of_int (if burst == 0 then rps else burst)))

module _ (fl : Float64) (seconds : ℕ → fl.F) where
  -- The refill of a bucket that is there; a clock that has not moved on, or has gone back, adds
  -- nothing and leaves `last_fill`: the elapsed time is 0 or less then, and here 0.
  unfoldable pub refill : (rps burst : fl.F) → (now : ℕ) → Bucket fl.F → Bucket fl.F
  refill rps burst now b =
      let elapsed = seconds (now - b.last_fill) in
      let filled = fl.add b.tokens (fl.mul elapsed rps) in
      if fl.lt (fl.of_int 0) elapsed
      then record b { tokens = if fl.lt burst filled then burst else filled; last_fill = now }
      else b

  unfoldable pub bucket_at : (rps burst : fl.F) → (now : ℕ) → Option (Bucket fl.F) → Bucket fl.F
  unfolding refill
  bucket_at rps burst now none = record { tokens = burst; last_fill = now }
  bucket_at rps burst now (some b) = refill rps burst now b

  -- The conversion of `retryAfter` to a Duration drops the fraction.
  unfoldable pub take_token : fl.F → Bucket fl.F → Bucket fl.F × Bool × ℕ
  take_token rps b =
      let needed = fl.sub (fl.of_int 1) b.tokens in
      if fl.le (fl.of_int 1) b.tokens
      then (record b { tokens = fl.sub b.tokens (fl.of_int 1) }, true, 0)
      else (b, false, fl.to_int (fl.mul (fl.div needed rps) (fl.of_int second)))

  unfoldable pub allow : Str → ℕ → BucketMap fl.F → BucketMap fl.F × Bool × ℕ
  unfolding lookup insert bucket_at take_token
  allow key now bm =
      let b = bucket_at bm.rps bm.burst now (lookup key bm.buckets) in
      let (b', allowed, retry_after) = take_token bm.rps b in
      (record bm { buckets = insert key b' bm.buckets }, allowed, retry_after)

  unfoldable pub serve : Str → ℕ → BucketMap fl.F → BucketMap fl.F × Reply
  unfolding allow
  serve key now bm =
      let (bm', allowed, retry_after) = allow key now bm in
      (bm', if allowed then served else too_many_requests (fl.to_int (seconds retry_after) + 1))
