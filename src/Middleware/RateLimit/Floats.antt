-- ===== src/Middleware/RateLimit/Floats.antt =====
-- What the limiter relies on of float64 and of the method Seconds of time.Duration. Every law holds
-- of all float64, NaN included, with numbers below 2^53, which float64 represents exactly: the
-- operations round the exact result, and rounding keeps the order.
use l7rp.Base.{ℕ, suc, ◌≤◌, ◌<◌, ◌≡◌, true, false, Float64}
use l7rp.Middleware.RateLimit.{second}

pub record IsFloat (fl : Float64) (seconds : ℕ → fl.F) : Type 0 where
  pub trans : (x y z : fl.F) → fl.le x y ≡ true → fl.le y z ≡ true → fl.le x z ≡ true
  pub of_int : (m n : ℕ) → m ≤ n → n < 9007199254740992 → fl.le (fl.of_int m) (fl.of_int n) ≡ true
  pub apart : fl.le (fl.of_int 1) (fl.of_int 0) ≡ false
  -- Of two numbers one is at most the other; a NaN is not at least 0.
  pub le :
      (n : ℕ) (x : fl.F)
      → fl.le (fl.of_int 0) x ≡ true
      → fl.lt (fl.of_int n) x ≡ false
      → fl.le x (fl.of_int n) ≡ true
  pub add :
      (x y : fl.F)
      → fl.le (fl.of_int 0) x ≡ true
      → fl.le (fl.of_int 0) y ≡ true
      → (fl.le x (fl.add x y) ≡ true) × (fl.le y (fl.add x y) ≡ true)
  pub mul :
      (x y : fl.F)
      → fl.le (fl.of_int 1) x ≡ true
      → fl.le (fl.of_int 1) y ≡ true
      → fl.le y (fl.mul x y) ≡ true
  pub mul_nonneg :
      (x y : fl.F)
      → fl.lt (fl.of_int 0) x ≡ true
      → fl.le (fl.of_int 1) y ≡ true
      → fl.le (fl.of_int 0) (fl.mul x y) ≡ true
  pub sub :
      (n : ℕ) (x : fl.F)
      → n < 9007199254740992
      → fl.le (fl.of_int 1) x ≡ true
      → fl.le x (fl.of_int (suc n)) ≡ true
      → (fl.le (fl.of_int 0) (fl.sub x (fl.of_int 1)) ≡ true)
        × (fl.le (fl.sub x (fl.of_int 1)) (fl.of_int n) ≡ true)
  pub moves : (d : ℕ) → 0 < d → fl.lt (fl.of_int 0) (seconds d) ≡ true
  pub still : fl.lt (fl.of_int 0) (seconds 0) ≡ false
  pub whole : (d : ℕ) → second ≤ d → fl.le (fl.of_int 1) (seconds d) ≡ true
