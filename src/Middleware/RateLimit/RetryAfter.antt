-- ===== src/Middleware/RateLimit/RetryAfter.antt =====
-- internal/middleware/ratelimit.go: the Retry-After header is long enough.
use l7rp.Base.{
  ℕ, ◌+◌, ◌-◌, ◌*◌, ◌≤◌, ◌<◌, ◌≡◌, inl, inr, true, List, Option, none, some, arith, Bool-cases, Str,
  str_eq_refl, Float64,
}
use l7rp.Middleware.RateLimit.{
  second, Bucket, BucketMap, lookup, refill, bucket_at, take_token, allow, new_bucket_map, served,
  too_many_requests, serve,
}
use l7rp.Middleware.RateLimit.Floats.{IsFloat}
use l7rp.Middleware.RateLimit.Held.{lookup-insert, after, after-new, bucket_at-Holds}

abbrev pub IsPast : {F : Type 0} → ℕ → Option (Bucket F) → Type 0
IsPast now none = Unit
IsPast now (some b) = b.last_fill ≤ now

module _ (fl : Float64) (seconds : ℕ → fl.F) where
  bucket_at-IsPast :
      (rps burst : fl.F) (now : ℕ) (o : Option (Bucket fl.F))
      → IsPast now o
      → (bucket_at fl seconds rps burst now o).last_fill ≤ now
  unfolding bucket_at refill
  bucket_at-IsPast rps burst now none p = omega arith
  bucket_at-IsPast rps burst now (some b) p =
      elim (Bool-cases (fl.lt (fl.of_int 0) (seconds (now - b.last_fill)))) [
        | inl e ↦ rw e (omega arith)
        | inr e ↦ rw e p
      ]

  serve_bucket :
      (key : Str) (now retry : ℕ) (bm : BucketMap fl.F)
      → (serve fl seconds key now bm).1 ≡ too_many_requests retry
      → (1 ≤ retry)
        × (lookup key (serve fl seconds key now bm).0.buckets
            ≡ some (bucket_at fl seconds bm.rps bm.burst now (lookup key bm.buckets)))
        × ((serve fl seconds key now bm).0.rps ≡ bm.rps)
        × ((serve fl seconds key now bm).0.burst ≡ bm.burst)
  unfolding serve allow take_token
  serve_bucket key now retry bm h =
      let b = bucket_at fl seconds bm.rps bm.burst now (lookup key bm.buckets) in
      ground (arith, lookup-insert key key b bm.buckets, str_eq_refl key)

  serve_found :
      (key : Str) (now : ℕ) (bm : BucketMap fl.F) (b : Bucket fl.F)
      → lookup key bm.buckets ≡ some b
      → fl.le (fl.of_int 1) (refill fl seconds bm.rps bm.burst now b).tokens ≡ true
      → (serve fl seconds key now bm).1 ≡ served
  unfolding serve allow take_token bucket_at
  serve_found key now bm b e h = rw e (ground arith)

  module _ (laws : IsFloat fl seconds) (r n : ℕ) (r_pos : 0 < r) (n_pos : 0 < n)
      (r_small : r < 9007199254740992) (n_small : n < 9007199254740992) where
    -- A second brings a token at least.
    refill-whole :
        (later : ℕ) (b : Bucket fl.F)
        → fl.le (fl.of_int 0) b.tokens ≡ true
        → b.last_fill + second ≤ later
        → fl.le (fl.of_int 1) (refill fl seconds (fl.of_int r) (fl.of_int n) later b).tokens ≡ true
    unfolding refill
    refill-whole later b low wait =
        let e = seconds (later - b.last_fill) in
        let one = laws.of_int 1 r (omega arith) r_small in
        let gain = fl.mul e (fl.of_int r) in
        let much =
          laws.trans (fl.of_int 1) (fl.of_int r) gain one
            (laws.mul e (fl.of_int r) (laws.whole (later - b.last_fill) (omega arith)) one) in
        let some_gain =
          laws.trans (fl.of_int 0) (fl.of_int 1) gain (laws.of_int 0 1 (omega arith) (omega arith))
            much in
        let filled =
          laws.trans (fl.of_int 1) gain (fl.add b.tokens gain) much
            (laws.add b.tokens gain low some_gain).1 in
        let moves = laws.moves (later - b.last_fill) (omega arith) in
        elim (Bool-cases (fl.lt (fl.of_int n) (fl.add b.tokens gain))) [
          | inl c ↦ rw (moves, c) (laws.of_int 1 n (omega arith) n_small)
          | inr c ↦ rw (moves, c) filled
        ]

    -- Behind any history of a limiter, a client that is refused with Retry-After `retry` and whose
    -- next request comes at least `retry` seconds later is served. (Rate and burst are positive and
    -- below 2^53, and the clock has not gone back since the key's bucket was filled.)
    pub serve-retry_after :
        (key : Str) (now later retry : ℕ) (past : List (Str × ℕ))
        → let bm = after fl seconds (new_bucket_map (fl.of_int r) (fl.of_int n)) past in
          IsPast now (lookup key bm.buckets)
          → (serve fl seconds key now bm).1 ≡ too_many_requests retry
          → now + retry * second ≤ later
          → (serve fl seconds key later (serve fl seconds key now bm).0).1 ≡ served
    serve-retry_after key now later retry history past refused wait =
        let bm = after fl seconds (new_bucket_map (fl.of_int r) (fl.of_int n)) history in
        let v = after-new fl seconds laws r n r_pos r_small n_small history in
        let b = bucket_at fl seconds (fl.of_int r) (fl.of_int n) now (lookup key bm.buckets) in
        let (told, kept, same_rps, same_burst) = serve_bucket key now retry bm refused in
        let filled =
          bucket_at-IsPast (fl.of_int r) (fl.of_int n) now (lookup key bm.buckets) past in
        let (low, high) =
          bucket_at-Holds fl seconds laws r n now (lookup key bm.buckets) r_pos r_small n_small
            (v.held key) in
        serve_found key later (serve fl seconds key now bm).0 b (rw (v.rate, v.limit) at kept)
          (rw (same_rps, same_burst, v.rate, v.limit) (refill-whole later b low (omega arith)))
