-- ===== src/Lb/Breaker/Invariant.antt =====
-- internal/lb/circuit.go: what holds of a breaker between any two calls.
use l7rp.Base.{
  ℕ, ◌-◌, ◌≤◌, ◌<◌, ◌≡◌, ◌⊎◌, List, [], ◌∷◌, ◌++◌, Bool, arith, length, length-drop, Float64,
}
use l7rp.Lb.Breaker.{
  breaker_closed, breaker_half_open, outcome_cancellation, CircuitBreakerConfig, BreakerSample,
  CircuitBreaker, Call, asks_state, records, reserves, new_circuit_breaker, advance_locked,
  current_state, drop_expired, cap_window, trim_window_locked, record_in, record_outcome,
  reserve_in, reserve, step, run, is_failure,
}

-- The configurations of which the invariant speaks; the defaults are one.
pub record IsUsable {F : Type 0} (cfg : CircuitBreakerConfig F) : Type 0 where
  pub ordered : cfg.open_min ≤ cfg.open_max
  pub probing : 0 < cfg.half_open_probes

pub record Inv {F : Type 0} (cfg : CircuitBreakerConfig F) (cb : CircuitBreaker) : Type 0 where
  pub windowed : length cb.samples ≤ cfg.window_size
  pub sampled_closed : (cb.state ≡ breaker_closed) ⊎ (cb.samples ≡ [])
  pub admitted : cb.probes_admitted ≤ cfg.half_open_probes
  pub succeeded : cb.probes_succeeded < cfg.half_open_probes
  pub probing_only :
      (cb.state ≡ breaker_half_open) ⊎ ((cb.probes_admitted ≡ 0) × (cb.probes_succeeded ≡ 0))
  pub shortest : (cb.state ≡ breaker_closed) ⊎ (cfg.open_min ≤ cb.open_duration)
  pub longest : cb.open_duration ≤ cfg.open_max

length-trim_window_locked-le :
    (now window size : ℕ) (xs : List BreakerSample)
    → length (trim_window_locked now window size xs) ≤ size
unfolding trim_window_locked cap_window
length-trim_window_locked-le now window size xs =
    ground
      (arith, length-drop (length (drop_expired now window xs) - size) (drop_expired now window xs))

module _ (fl : Float64) (cfg : CircuitBreakerConfig fl.F) (u : IsUsable cfg) where
  new_circuit_breaker-Inv : Inv cfg new_circuit_breaker
  unfolding new_circuit_breaker
  new_circuit_breaker-Inv = ground arith

  advance_locked-Inv :
      (now : ℕ) (cb : CircuitBreaker) → Inv cfg cb → Inv cfg (advance_locked now cb)
  unfolding advance_locked
  advance_locked-Inv now cb v = ground arith

  record_in-Inv :
      (now : ℕ) (failed : Bool) (cb : CircuitBreaker)
      → Inv cfg cb
      → Inv cfg (record_in fl cfg cb.state now failed cb)
  unfolding record_in
  record_in-Inv now failed cb v = ground (
    arith,
    length-trim_window_locked-le now cfg.window_duration cfg.window_size
        (cb.samples ++ record { failure = failed; at = now } ∷ []),
  )

  reserve_in-Inv : (cb : CircuitBreaker) → Inv cfg cb → Inv cfg (reserve_in fl cfg cb.state cb).0
  unfolding reserve_in
  reserve_in-Inv cb v = ground arith

  step-Inv : (cb : CircuitBreaker) (c : Call) → Inv cfg cb → Inv cfg (step fl cfg cb c)
  unfolding step current_state reserve record_outcome
  step-Inv cb (asks_state now) v = advance_locked-Inv now cb v
  step-Inv cb (records t now outcome_cancellation) v = v
  step-Inv cb (records t now outcome) v =
      record_in-Inv now (is_failure outcome) (advance_locked t cb) (advance_locked-Inv t cb v)
  step-Inv cb (reserves now) v =
      reserve_in-Inv (advance_locked now cb) (advance_locked-Inv now cb v)

  run-Inv : (cb : CircuitBreaker) (cs : List Call) → Inv cfg cb → Inv cfg (run fl cfg cb cs)
  unfolding run
  run-Inv cb [] v = v
  run-Inv cb (c ∷ cs) v = run-Inv (step fl cfg cb c) cs (step-Inv cb c v)

  -- After any calls on a new breaker: the window holds at most `window_size` samples and is empty
  -- unless the breaker is closed; at most `half_open_probes` probes are admitted and fewer have
  -- succeeded, and outside half-open both counts are 0; unless it is closed the open duration is at
  -- least `open_min`, and it is never above `open_max`. The configuration has `open_min` at most
  -- `open_max` and a positive number of probes.
  pub run-new-Inv : (cs : List Call) → Inv cfg (run fl cfg new_circuit_breaker cs)
  run-new-Inv cs = run-Inv new_circuit_breaker cs new_circuit_breaker-Inv
