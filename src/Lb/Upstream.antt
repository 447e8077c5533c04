-- ===== src/Lb/Upstream.antt =====
-- internal/lb/upstream.go: one backend of a pool. `id` stands for the pointer, so two upstreams are
-- the same exactly when their ids are. An in-flight count is never negative: the proxy lowers it
-- only behind its own increment. A negative weight, which nothing but the test `Weight <= 0` reads,
-- is 0.
use l7rp.Base.{ℕ, ◌-◌, ◌%◌, ◌^◌, Bool, false, not, Str, ◌==◌, if◌then◌else◌, Float64}
use l7rp.Lb.Breaker.{CircuitBreaker, is_open, current_state}

pub record Upstream : Type 0 where
  pub id : ℕ
  pub url : Str
  pub weight : ℕ
  pub eligible : Bool
  pub in_flight : ℕ  -- int64
  pub latency_ewma : ℕ  -- uint64
  pub last_update : ℕ
  pub breaker : CircuitBreaker

abbrev pub uint64 : ℕ → ℕ
uint64 n = n % 2 ^ 64

-- `now - last` below 0 is set to 0, as `-` on ℕ is.
unfoldable pub record_latency : Float64 → (now latency half_life : ℕ) → Upstream → Upstream
record_latency fl now latency half_life u =
    let obs = uint64 latency in
    let dt = now - u.last_update in
    let alpha = fl.sub (fl.of_int 1) (fl.exp_neg (fl.div (fl.of_int dt) (fl.of_int half_life))) in
    let new_ewma = uint64 (
      fl.to_int (
        fl.add (fl.mul alpha (fl.of_int obs))
          (fl.mul (fl.sub (fl.of_int 1) alpha) (fl.of_int u.latency_ewma)))) in
    if u.last_update == 0
    then record u { latency_ewma = obs; last_update = now }
    else record u { latency_ewma = new_ewma; last_update = now }

-- The breaker is asked, and so moved on, only where the flag is set.
unfoldable pub eligible_for_selection : ℕ → Upstream → Upstream × Bool
unfolding current_state
eligible_for_selection now u =
    let (breaker', state) = current_state now u.breaker in
    if u.eligible then (record u { breaker = breaker' }, not (is_open state)) else (u, false)

abbrev pub latency_nanos : Upstream → ℕ
latency_nanos u = u.latency_ewma
