-- ===== src/Lb/Breaker.antt =====
-- internal/lb/circuit.go: the circuit breaker of one upstream. A method takes the readings of the
-- clock that it makes, as nanoseconds, and returns the breaker after it; the mutex makes each
-- method one step. Instants and durations are natural numbers, so `now.Sub(a) >= d` is `a + d ≤
-- now`.
pub mod Invariant
pub mod Window
pub mod Probes
pub mod Backoff
mod Examples
use l7rp.Base.{
  ℕ, zero, suc, ◌+◌, ◌-◌, ◌*◌, Bool, true, false, ◌&&◌, not, List, [], ◌∷◌, ◌++◌, ltb, leb,
  if◌then◌else◌, length, drop, count_if, Float64,
}

pub data BreakerState : Type 0 where
  breaker_closed breaker_open breaker_half_open : BreakerState

pub data BreakerOutcome : Type 0 where
  outcome_success outcome_failure outcome_cancellation : BreakerOutcome

-- `F` is float64.
pub record CircuitBreakerConfig (F : Type 0) : Type 0 where
  pub failure_ratio : F
  pub min_observations : ℕ
  pub window_duration : ℕ
  pub window_size : ℕ
  pub open_min : ℕ
  pub open_max : ℕ
  pub half_open_probes : ℕ

pub record BreakerSample : Type 0 where
  pub failure : Bool
  pub at : ℕ

-- The configuration stands beside the breaker: it never changes.
pub record CircuitBreaker : Type 0 where
  pub state : BreakerState
  pub opened_at : ℕ
  pub open_duration : ℕ
  pub probes_admitted : ℕ
  pub probes_succeeded : ℕ
  pub samples : List BreakerSample

abbrev pub second : ℕ
second = 1000000000

-- 0.5 is 1 / 2.
unfoldable pub default_circuit_breaker_config : (fl : Float64) → CircuitBreakerConfig fl.F
default_circuit_breaker_config fl = record {
  failure_ratio = fl.div (fl.of_int 1) (fl.of_int 2);
  min_observations = 20;
  window_duration = 30 * second;
  window_size = 100;
  open_min = second;
  open_max = 60 * second;
  half_open_probes = 5;
}

unfoldable pub new_circuit_breaker : CircuitBreaker
new_circuit_breaker = record {
  state = breaker_closed;
  opened_at = 0;
  open_duration = 0;
  probes_admitted = 0;
  probes_succeeded = 0;
  samples = [];
}

abbrev pub is_open : BreakerState → Bool
is_open breaker_open = true
is_open _ = false

unfoldable pub advance_locked : ℕ → CircuitBreaker → CircuitBreaker
advance_locked now cb =
    if is_open cb.state && leb (cb.opened_at + cb.open_duration) now
    then record cb { state = breaker_half_open; probes_admitted = 0; probes_succeeded = 0 }
    else cb

-- The method State.
unfoldable pub current_state : ℕ → CircuitBreaker → CircuitBreaker × BreakerState
current_state now cb = let cb' = advance_locked now cb in (cb', cb'.state)

-- The first loop of trimWindowLocked: `at.Before(now - window)`.
unfoldable pub drop_expired : ℕ → ℕ → List BreakerSample → List BreakerSample
drop_expired now window [] = []
drop_expired now window (s ∷ rest) =
    let kept = drop_expired now window rest in if ltb (s.at + window) now then kept else s ∷ rest

unfoldable pub cap_window : ℕ → List BreakerSample → List BreakerSample
cap_window size xs = if ltb size (length xs) then drop (length xs - size) xs else xs

unfoldable pub trim_window_locked : (now window size : ℕ) → List BreakerSample → List BreakerSample
trim_window_locked now window size xs = cap_window size (drop_expired now window xs)

abbrev pub failures : List BreakerSample → ℕ
failures = count_if (λ s. s.failure)

abbrev pub is_failure : BreakerOutcome → Bool
is_failure outcome_failure = true
is_failure _ = false

module _ (fl : Float64) (cfg : CircuitBreakerConfig fl.F) where
  unfoldable pub should_trip_locked : List BreakerSample → Bool
  should_trip_locked xs =
      if ltb (length xs) cfg.min_observations
      then false
      else fl.lt cfg.failure_ratio (fl.div (fl.of_int (failures xs)) (fl.of_int (length xs)))

  -- The three cases of the switch in Record.
  unfoldable pub record_closed : ℕ → Bool → CircuitBreaker → CircuitBreaker
  record_closed now failed cb =
      let sample : BreakerSample = record { failure = failed; at = now } in
      let kept =
        trim_window_locked now cfg.window_duration cfg.window_size (cb.samples ++ sample ∷ []) in
      if should_trip_locked kept
      then record cb {
        open_duration = cfg.open_min;
        opened_at = now;
        state = breaker_open;
        samples = [];
      }
      else record cb { samples = kept }

  unfoldable pub record_half_open : ℕ → Bool → CircuitBreaker → CircuitBreaker
  record_half_open now true cb =
      let new_dur = cb.open_duration * 2 in
      record cb {
        open_duration = if ltb cfg.open_max new_dur then cfg.open_max else new_dur;
        opened_at = now;
        state = breaker_open;
        probes_admitted = 0;
        probes_succeeded = 0;
      }
  record_half_open now false cb =
      if leb cfg.half_open_probes (cb.probes_succeeded + 1)
      then record cb {
        state = breaker_closed;
        open_duration = cfg.open_min;
        probes_admitted = 0;
        probes_succeeded = 0;
        samples = [];
      }
      else record cb { probes_succeeded = cb.probes_succeeded + 1 }

  unfoldable pub record_in : BreakerState → ℕ → Bool → CircuitBreaker → CircuitBreaker
  unfolding record_closed record_half_open
  record_in breaker_closed now failed cb = record_closed now failed cb
  record_in breaker_half_open now failed cb = record_half_open now failed cb
  record_in breaker_open now failed cb = cb

  -- The method Record: `t` is the reading in advanceLocked, `now` the one behind it.
  unfoldable pub record_outcome : (t now : ℕ) → BreakerOutcome → CircuitBreaker → CircuitBreaker
  unfolding record_in advance_locked
  record_outcome t now outcome_cancellation cb = cb
  record_outcome t now outcome cb =
      let cb' = advance_locked t cb in record_in cb'.state now (is_failure outcome) cb'

  unfoldable pub reserve_in : BreakerState → CircuitBreaker → CircuitBreaker × Bool
  reserve_in breaker_closed cb = (cb, true)
  reserve_in breaker_open cb = (cb, false)
  reserve_in breaker_half_open cb =
      if ltb cb.probes_admitted cfg.half_open_probes
      then (record cb { probes_admitted = cb.probes_admitted + 1 }, true)
      else (cb, false)

  unfoldable pub reserve : ℕ → CircuitBreaker → CircuitBreaker × Bool
  unfolding reserve_in advance_locked
  reserve now cb = let cb' = advance_locked now cb in reserve_in cb'.state cb'

-- A clock that has gone back lengthens the rest; `-` stops at 0 where the source returns 0.
unfoldable pub remaining_open : ℕ → CircuitBreaker → ℕ
remaining_open now cb = if is_open cb.state then (cb.open_duration + cb.opened_at) - now else 0

-- What the rest of the program calls, and a history of such calls.
pub data Call : Type 0 where
  asks_state : ℕ → Call
  records : (t now : ℕ) → BreakerOutcome → Call
  reserves : ℕ → Call

module _ (fl : Float64) (cfg : CircuitBreakerConfig fl.F) where
  unfoldable pub step : CircuitBreaker → Call → CircuitBreaker
  unfolding current_state reserve record_outcome
  step cb (asks_state now) = (current_state now cb).0
  step cb (records t now outcome) = record_outcome fl cfg t now outcome cb
  step cb (reserves now) = (reserve fl cfg now cb).0

  unfoldable pub run : CircuitBreaker → List Call → CircuitBreaker
  run cb [] = cb
  run cb (c ∷ cs) = run (step cb c) cs
