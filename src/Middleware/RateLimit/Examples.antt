-- ===== src/Middleware/RateLimit/Examples.antt =====
-- A limiter with whole numbers in place of float64.
use l7rp.Base.{
  ℕ, ◌+◌, ◌-◌, ◌*◌, ◌/◌, ◌≤◌, ◌<◌, ◌≡◌, refl, List, [], ◌∷◌, ltb, leb, arith, Str, bytes, Float64,
}
use native.Mathlib.Nat.{div-add-mod, mod-lt}
use l7rp.Middleware.RateLimit.{
  second, new_bucket_map, lookup, insert, refill, bucket_at, take_token, allow, serve, served,
}
use l7rp.Middleware.RateLimit.Floats.{IsFloat}
use l7rp.Middleware.RateLimit.Held.{after}
use l7rp.Middleware.RateLimit.Rate.{granted, granted-burst}
use l7rp.Middleware.RateLimit.RetryAfter.{serve-retry_after}

abbrev whole : Float64
whole = record {
  F = ℕ;
  of_int = λ n. n;
  to_int = λ x. x;
  ceil = λ x. x;
  exp_neg = λ x. 0;
  add = λ x y. x + y;
  sub = λ x y. x - y;
  mul = λ x y. x * y;
  div = λ x y. x / y;
  lt = ltb;
  le = leb;
}

-- The seconds of a Duration, rounded up.
abbrev seconds : ℕ → ℕ
seconds d = (d + 999999999) / second

seconds-pos : (d : ℕ) → 0 < d → 0 < seconds d
seconds-pos d h =
    let split = div-add-mod (d + 999999999) second in
    let some_second : 0 < second = omega arith in
    let rest = mod-lt (d + 999999999) some_second in omega arith

mul_ge : (x y : ℕ) → 1 ≤ x → y ≤ x * y
mul_ge x y h = grind arith

whole-IsFloat : IsFloat whole seconds
whole-IsFloat = record {
  trans = λ x y z p q. ground arith;
  of_int = λ m n p q. ground arith;
  apart = refl;
  le = λ n x p q. ground arith;
  add = λ x y p q. (ground arith, ground arith);
  mul = λ x y p q. ground (arith, mul_ge x y (ground arith));
  mul_nonneg = λ x y p q. ground arith;
  sub = λ n x s p q. (ground arith, ground arith);
  moves = λ d h. ground (arith, seconds-pos d h);
  still = refl;
  whole = λ d h. ground (arith, seconds-pos d (omega arith));
}

-- Two clients, of whom one has waited for long.
abbrev past : List (Str × ℕ)
past = (bytes "a", 0) ∷ (bytes "b", 5) ∷ []

abbrev keys : List Str
keys = bytes "a" ∷ bytes "a" ∷ bytes "b" ∷ bytes "a" ∷ bytes "a" ∷ []

granted-burst_example :
    granted whole seconds
      (bytes "a")
      90000000000
      (after whole seconds (new_bucket_map 2 3) past)
      keys
    ≤ 3
granted-burst_example =
    granted-burst whole seconds whole-IsFloat 2 3 (omega arith) (omega arith) (omega arith)
      (bytes "a") 90000000000 past keys

-- Three of them are let through, the fourth is not.
granted_count :
    granted whole seconds
      (bytes "a")
      90000000000
      (after whole seconds (new_bucket_map 2 3) past)
      keys
    ≡ 3
unfolding allow lookup insert bucket_at refill take_token new_bucket_map
granted_count = refl

serve-retry_after_example :
    (serve whole seconds
      (bytes "a")
      3000000000
      (serve whole seconds
        (bytes "a")
        0
        (after whole seconds (new_bucket_map 1 1) ((bytes "a", 0) ∷ []))).0).1
    ≡ served
unfolding allow lookup insert bucket_at refill take_token new_bucket_map
serve-retry_after_example =
    serve-retry_after whole seconds whole-IsFloat 1 1 (omega arith) (omega arith) (omega arith)
      (omega arith) (bytes "a") 0 3000000000 2 ((bytes "a", 0) ∷ []) (omega arith)
      (unfold serve in refl) (omega arith)
