-- ===== src/Middleware/RateLimit/Held.antt =====
-- internal/middleware/ratelimit.go: what the buckets of a limiter hold.
use l7rp.Base.{
  ℕ, zero, suc, ◌-◌, ◌≤◌, ◌<◌, ◌≡◌, refl, inl, inr, List, [], ◌∷◌, true, Option, none, some, arith,
  if◌then◌else◌, Bool-cases, Str, str_eq, str_eq_refl, str_eq_sound, ltb, Float64,
}
use l7rp.Middleware.RateLimit.{
  Bucket, BucketMap, lookup, insert, refill, bucket_at, take_token, allow, new_bucket_map,
}
use l7rp.Middleware.RateLimit.Floats.{IsFloat}

-- A map under `insert`.
pub lookup-insert :
    {F : Type 0} (key k : Str) (b : Bucket F) (m : List (Str × Bucket F))
    → lookup k (insert key b m) ≡ (if str_eq key k then some b else lookup k m)
unfolding lookup insert
lookup-insert key k b [] = refl
lookup-insert key k b ((j, c) ∷ m) = ground (
  arith,
  str_eq_sound key k,
  str_eq_sound j key,
  str_eq_sound j k,
  str_eq_refl k,
  lookup-insert key k b m,
)

abbrev pub less : ℕ → ℕ
less zero = zero
less (suc n) = n

pub less_le : (n : ℕ) → less n ≤ n
less_le zero = omega arith
less_le (suc n) = omega arith

module _ (fl : Float64) (seconds : ℕ → fl.F) where
  -- The tokens are at least 0 and at most `n`.
  abbrev pub Holds : ℕ → Bucket fl.F → Type 0
  Holds n b = (fl.le (fl.of_int 0) b.tokens ≡ true) × (fl.le b.tokens (fl.of_int n) ≡ true)

  abbrev pub IsHeld : ℕ → Option (Bucket fl.F) → Type 0
  IsHeld n none = Unit
  IsHeld n (some b) = Holds n b

  -- The limiter behind a history of requests; each is a key with an instant.
  abbrev pub after : BucketMap fl.F → List (Str × ℕ) → BucketMap fl.F
  after bm [] = bm
  after bm ((k, now) ∷ past) = after (allow fl seconds k now bm).0 past

  module _ (laws : IsFloat fl seconds) where
    refill-Holds :
        (r n now : ℕ) (b : Bucket fl.F)
        → 0 < r
        → r < 9007199254740992
        → n < 9007199254740992
        → Holds n b
        → Holds n (refill fl seconds (fl.of_int r) (fl.of_int n) now b)
    unfolding refill
    refill-Holds r n now b r_pos r_small n_small (low, high) =
        let e = seconds (now - b.last_fill) in
        elim (Bool-cases (fl.lt (fl.of_int 0) e)) [
          | inr stays ↦ rw stays (low, high)
          | inl moves ↦
              let rate = laws.of_int 1 r (omega arith) r_small in
              let gain = laws.mul_nonneg e (fl.of_int r) moves rate in
              let filled = fl.add b.tokens (fl.mul e (fl.of_int r)) in
              let grown =
                laws.trans (fl.of_int 0) b.tokens filled low
                  (laws.add b.tokens (fl.mul e (fl.of_int r)) low gain).0 in
              elim (Bool-cases (fl.lt (fl.of_int n) filled)) [
                | inl c ↦
                    rw (moves, c)
                      (laws.of_int 0 n (omega arith) n_small, laws.of_int n n (omega arith) n_small)
                | inr c ↦ rw (moves, c) (grown, laws.le n filled grown c)
              ]
        ]

    pub bucket_at-Holds :
        (r n now : ℕ) (o : Option (Bucket fl.F))
        → 0 < r
        → r < 9007199254740992
        → n < 9007199254740992
        → IsHeld n o
        → Holds n (bucket_at fl seconds (fl.of_int r) (fl.of_int n) now o)
    unfolding bucket_at
    bucket_at-Holds r n now none r_pos r_small n_small h =
        (laws.of_int 0 n (omega arith) n_small, laws.of_int n n (omega arith) n_small)
    bucket_at-Holds r n now (some b) r_pos r_small n_small h =
        refill-Holds r n now b r_pos r_small n_small h

    -- A token fewer, or the same bucket.
    pub take_token-Holds :
        (rps : fl.F) (n : ℕ) (b : Bucket fl.F)
        → n < 9007199254740992
        → Holds n b
        → Holds
            (if (take_token fl seconds rps b).1 then less n else n)
            (take_token fl seconds rps b).0
          × ((take_token fl seconds rps b).1 ≡ true → 0 < n)
    unfolding take_token
    take_token-Holds rps zero b small (low, high) =
        elim (Bool-cases (fl.le (fl.of_int 1) b.tokens)) [
          | inl e ↦
              absurd
                (ground (arith, laws.apart, laws.trans (fl.of_int 1) b.tokens (fl.of_int 0) e high))
          | inr e ↦ rw e ((low, high), λ t. absurd (cc))
        ]
    take_token-Holds rps (suc n) b small (low, high) =
        elim (Bool-cases (fl.le (fl.of_int 1) b.tokens)) [
          | inl e ↦ rw e (laws.sub n b.tokens (omega arith) e high, λ t. omega arith)
          | inr e ↦ rw e ((low, high), λ t. omega arith)
        ]

    take_token-kept :
        (rps : fl.F) (n : ℕ) (b : Bucket fl.F)
        → n < 9007199254740992
        → Holds n b
        → Holds n (take_token fl seconds rps b).0
    take_token-kept rps n b small held =
        let (left, more) = take_token-Holds rps n b small held in
        elim (Bool-cases (take_token fl seconds rps b).1) [
          | inl e ↦
              let (low, high) : Holds (less n) (take_token fl seconds rps b).0 = rw e at left in
              (
                low,
                laws.trans (take_token fl seconds rps b).0.tokens (fl.of_int (less n)) (fl.of_int n)
                    high (laws.of_int (less n) n (less_le n) small),
              )
          | inr e ↦ rw e at left
        ]

    pub take_token-last_fill :
        (rps : fl.F) (b : Bucket fl.F) → (take_token fl seconds rps b).0.last_fill ≡ b.last_fill
    unfolding take_token
    take_token-last_fill rps b = ground arith

    pub bucket_at-reached :
        (rps burst : fl.F) (now : ℕ) (o : Option (Bucket fl.F))
        → now ≤ (bucket_at fl seconds rps burst now o).last_fill
    unfolding bucket_at refill
    bucket_at-reached rps burst now none = omega arith
    bucket_at-reached rps burst now (some b) = elim (Bool-cases (ltb b.last_fill now)) [
      | inl c ↦ rw (laws.moves (now - b.last_fill) (ground arith)) (omega arith)
      | inr c ↦
          let none_passed : now - b.last_fill ≡ 0 = ground arith in
          rw (none_passed, laws.still) (ground arith)
    ]

    -- A bucket that is filled already is left alone.
    pub bucket_at-filled :
        (rps burst : fl.F) (now : ℕ) (b : Bucket fl.F)
        → now ≤ b.last_fill
        → bucket_at fl seconds rps burst now (some b) ≡ b
    unfolding bucket_at refill
    bucket_at-filled rps burst now b h =
        let none_passed : now - b.last_fill ≡ 0 = omega arith in rw (none_passed, laws.still) refl

    -- What holds of the buckets of a limiter at any time.
    pub record IsLimiter (r n : ℕ) (bm : BucketMap fl.F) : Type 0 where
      pub rate : bm.rps ≡ fl.of_int r
      pub limit : bm.burst ≡ fl.of_int n
      pub held : (key : Str) → IsHeld n (lookup key bm.buckets)

    module _ (r n : ℕ) (r_pos : 0 < r) (r_small : r < 9007199254740992)
        (n_small : n < 9007199254740992) where
      -- The bucket that a request of the key meets.
      abbrev pub met : ℕ → Str → BucketMap fl.F → Bucket fl.F
      met now k bm = bucket_at fl seconds (fl.of_int r) (fl.of_int n) now (lookup k bm.buckets)

      pub allow-met :
          (k key : Str) (now : ℕ) (bm : BucketMap fl.F)
          → IsLimiter r n bm
          → ((allow fl seconds k now bm).1 ≡ (take_token fl seconds (fl.of_int r) (met now k bm)).1)
            × (lookup key (allow fl seconds k now bm).0.buckets ≡ (
                if str_eq k key
                then some (take_token fl seconds (fl.of_int r) (met now k bm)).0
                else lookup key bm.buckets))
      unfolding allow
      allow-met k key now bm v =
          rw (v.rate, v.limit)
            (
              refl,
              lookup-insert k key (take_token fl seconds (fl.of_int r) (met now k bm)).0 bm.buckets,
            )

      pub allow-IsLimiter :
          (k : Str) (now : ℕ) (bm : BucketMap fl.F)
          → IsLimiter r n bm
          → IsLimiter r n (allow fl seconds k now bm).0
      allow-IsLimiter k now bm v = record {
        rate = unfold allow in v.rate;
        limit = unfold allow in v.limit;
        held = λ key. rw ((allow-met k key now bm v).1) (elim (Bool-cases (str_eq k key)) [
          | inl e ↦ rw e (
              take_token-kept (fl.of_int r) n (met now k bm) n_small
                (bucket_at-Holds r n now (lookup k bm.buckets) r_pos r_small n_small (v.held k)))
          | inr e ↦ rw e (v.held key)
        ]);
      }

      after-IsLimiter :
          (bm : BucketMap fl.F) (past : List (Str × ℕ))
          → IsLimiter r n bm
          → IsLimiter r n (after bm past)
      after-IsLimiter bm [] v = v
      after-IsLimiter bm ((k, now) ∷ past) v =
          after-IsLimiter (allow fl seconds k now bm).0 past (allow-IsLimiter k now bm v)

      pub after-new :
          (past : List (Str × ℕ))
          → IsLimiter r n (after (new_bucket_map (fl.of_int r) (fl.of_int n)) past)
      unfolding new_bucket_map lookup
      after-new past =
          after-IsLimiter (new_bucket_map (fl.of_int r) (fl.of_int n)) past
            (record { rate = refl; limit = refl; held = λ key. tt })
