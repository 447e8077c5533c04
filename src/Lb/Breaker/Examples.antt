-- ===== src/Lb/Breaker/Examples.antt =====
-- The circuit breaker at small inputs: a window of three samples, two probes, and open phases of 10
-- to 40.
use l7rp.Base.{◌≡◌, refl, ◌↔◌, List, [], ◌∷◌, true, false, arith}
use l7rp.Base.Ratio.{ratio}
use l7rp.Lb.Breaker.{
  breaker_open, breaker_half_open, outcome_success, outcome_failure, outcome_cancellation,
  CircuitBreakerConfig, CircuitBreaker, Call, asks_state, records, reserves, new_circuit_breaker,
  record_outcome, reserve, step, run, should_trip_locked, trim_window_locked, cap_window,
  drop_expired,
}
use l7rp.Lb.Breaker.Invariant.{IsUsable, Inv, run-new-Inv}
use l7rp.Lb.Breaker.Window.{Recorded, Trips, record_outcome-Trips_iff}
use l7rp.Lb.Breaker.Window.Trim.{recent}
use l7rp.Lb.Breaker.Probes.{admits, admits-half_open, half_open_stuck}
use l7rp.Lb.Breaker.Backoff.{fail_probes, fail_probes-open_duration}

abbrev small : CircuitBreakerConfig ratio.F
small = record {
  failure_ratio = (1, 2);
  min_observations = 2;
  window_duration = 100;
  window_size = 3;
  open_min = 10;
  open_max = 40;
  half_open_probes = 2;
}

small-IsUsable : IsUsable small
small-IsUsable = record { ordered = omega arith; probing = omega arith }

abbrev tripping : List Call
tripping =
    records 1 1 outcome_failure
    ∷ records 2 2 outcome_failure
    ∷ asks_state 12
    ∷ reserves 13
    ∷ reserves 14
    ∷ records 15 15 outcome_cancellation
    ∷ []

run-new-Inv_example : Inv small (run ratio small new_circuit_breaker tripping)
run-new-Inv_example = run-new-Inv ratio small small-IsUsable tripping

-- The history ends with the breaker half-open and all its slots taken.
tripping_state : (run ratio small new_circuit_breaker tripping).state ≡ breaker_half_open
unfolding run new_circuit_breaker step should_trip_locked trim_window_locked cap_window drop_expired
tripping_state = refl

tripping_admitted : (run ratio small new_circuit_breaker tripping).probes_admitted ≡ 2
unfolding run new_circuit_breaker step should_trip_locked trim_window_locked cap_window drop_expired
tripping_admitted = refl

tripping_succeeded : (run ratio small new_circuit_breaker tripping).probes_succeeded ≡ 0
unfolding run new_circuit_breaker step should_trip_locked trim_window_locked cap_window drop_expired
tripping_succeeded = refl

half_open_stuck_example :
    let cb = run ratio small new_circuit_breaker tripping in
    ((run ratio small cb (records 16 16 outcome_success ∷ [])).state ≡ breaker_half_open)
    × ((reserve ratio small 1000000 (run ratio small cb (records 16 16 outcome_success ∷ []))).1
        ≡ false)
half_open_stuck_example =
    half_open_stuck ratio small (run ratio small new_circuit_breaker tripping)
      (records 16 16 outcome_success ∷ []) 1000000 tripping_state tripping_admitted ((λ e. cc), tt)
      (omega (arith, tripping_succeeded))

abbrev told_once : CircuitBreaker
told_once = record_outcome ratio small 1 1 outcome_failure new_circuit_breaker

one_failure : Recorded ratio small told_once 1 (record { failure = true; at = 1 } ∷ [])
unfolding record_outcome new_circuit_breaker should_trip_locked trim_window_locked cap_window
    drop_expired
one_failure =
    Recorded.observed 1 1 outcome_failure (Recorded.closed refl refl) (omega arith) (λ e. cc) refl

record_outcome-Trips_iff_example :
    ((record_outcome ratio small 2 2 outcome_failure told_once).state ≡ breaker_open)
    ↔ Trips ratio small (
        recent 2 100 3 (record { failure = true; at = 1 } ∷ record { failure = true; at = 2 } ∷ []))
record_outcome-Trips_iff_example =
    record_outcome-Trips_iff ratio small told_once 1 2 2 (record { failure = true; at = 1 } ∷ [])
      outcome_failure one_failure (omega arith) (λ e. cc)

abbrev probing : CircuitBreaker
probing = record {
  state = breaker_half_open;
  opened_at = 2;
  open_duration = 10;
  probes_admitted = 0;
  probes_succeeded = 0;
  samples = [];
}

admits-half_open_example : admits ratio small probing (20 ∷ 21 ∷ 22 ∷ []) ≡ 2
admits-half_open_example = admits-half_open ratio small probing (20 ∷ 21 ∷ 22 ∷ []) refl

abbrev tripped : CircuitBreaker
tripped = record {
  state = breaker_open;
  opened_at = 2;
  open_duration = 10;
  probes_admitted = 0;
  probes_succeeded = 0;
  samples = [];
}

fail_probes-open_duration_example :
    (fail_probes ratio small tripped (12 ∷ 32 ∷ 80 ∷ [])).open_duration ≡ 40
unfolding record_outcome
fail_probes-open_duration_example =
    (fail_probes-open_duration ratio small tripped (12 ∷ 32 ∷ 80 ∷ []) refl (omega arith)
      (omega arith)).1
