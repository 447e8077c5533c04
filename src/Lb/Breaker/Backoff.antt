-- ===== src/Lb/Breaker/Backoff.antt =====
-- internal/lb/circuit.go: the open phase, and how it grows from trip to trip.
use l7rp.Base.{
  ℕ, zero, suc, ◌+◌, ◌*◌, ◌^◌, ◌≤◌, ◌<◌, min, ◌≡◌, ◌∙◌, ◌↔◌, List, [], ◌∷◌, true, arith, length,
  Float64,
}
use l7rp.Lb.Breaker.{
  breaker_open, outcome_failure, CircuitBreakerConfig, CircuitBreaker, advance_locked,
  record_half_open, record_in, record_outcome, reserve_in, reserve, remaining_open,
}
use native.Mathlib.Nat.{pow-suc, mul-le-mul_left, mul-le-mul_right}
use native.Mathlib.Decide.{dec_le}

pow_pos : (n : ℕ) → 0 < 2 ^ n
pow_pos zero = omega arith
pow_pos (suc n) = rw (pow-suc 2 n) (omega (arith, pow_pos n))

-- Capping at each doubling is capping once.
double_capped : (d m p : ℕ) → 0 < p → min (min (d * 2) m * p) m ≡ min (d * 2 * p) m
double_capped d m p h = elim (dec_le (d * 2) m) [
  | yes le ↦ let e : min (d * 2) m ≡ d * 2 = omega arith in rw e
  | no gt ↦
      let e : min (d * 2) m ≡ m = omega arith in
      let below : m ≤ d * 2 = omega arith in
      let near : m * 1 ≤ m * p = mul-le-mul_left m h in
      let far : m * p ≤ d * 2 * p = mul-le-mul_right p below in rw e (omega arith)
]

module _ (fl : Float64) (cfg : CircuitBreakerConfig fl.F) where
  -- An open breaker admits a request exactly when RemainingOpen has come down to 0, and until then
  -- Reserve leaves it as it is. (The number of probes is positive.)
  pub reserve-remaining_open_iff :
      (now : ℕ) (cb : CircuitBreaker)
      → cb.state ≡ breaker_open
      → 0 < cfg.half_open_probes
      → (((reserve fl cfg now cb).1 ≡ true) ↔ (remaining_open now cb ≡ 0))
        × (0 < remaining_open now cb → (reserve fl cfg now cb).0 ≡ cb)
  unfolding reserve reserve_in advance_locked remaining_open
  reserve-remaining_open_iff now cb h p =
      ((λ e. ground arith, λ e. ground arith), λ e. ground arith)

  -- One failed probe after another, each reported at an instant of the list.
  abbrev pub fail_probes : CircuitBreaker → List ℕ → CircuitBreaker
  fail_probes cb [] = cb
  fail_probes cb (t ∷ ts) = fail_probes (record_outcome fl cfg t t outcome_failure cb) ts

  -- Each of them comes when the open phase before it has elapsed.
  abbrev pub AfterRest : CircuitBreaker → List ℕ → Type 0
  AfterRest cb [] = Unit
  AfterRest cb (t ∷ ts) =
      (cb.opened_at + cb.open_duration ≤ t)
      × AfterRest (record_outcome fl cfg t t outcome_failure cb) ts

  record_failure-open :
      (t : ℕ) (cb : CircuitBreaker)
      → cb.state ≡ breaker_open
      → cb.opened_at + cb.open_duration ≤ t
      → let next = record_outcome fl cfg t t outcome_failure cb in
        (next.state ≡ breaker_open)
        × (next.open_duration ≡ min (cb.open_duration * 2) cfg.open_max)
        × (next.opened_at ≡ t)
  unfolding record_outcome record_in record_half_open advance_locked
  record_failure-open t cb h r = ground arith

  -- After k failed probes in a row the open duration is 2 ^ k times what it was, capped at
  -- `open_max`, and the breaker is open.
  pub fail_probes-open_duration :
      (cb : CircuitBreaker) (ts : List ℕ)
      → cb.state ≡ breaker_open
      → cb.open_duration ≤ cfg.open_max
      → AfterRest cb ts
      → ((fail_probes cb ts).state ≡ breaker_open)
        × ((fail_probes cb ts).open_duration ≡ min (cb.open_duration * 2 ^ length ts) cfg.open_max)
  fail_probes-open_duration cb [] h c r = (h, omega arith)
  fail_probes-open_duration cb (t ∷ ts) h c r =
      let next = record_outcome fl cfg t t outcome_failure cb in
      let (opened, lasts, _) = record_failure-open t cb h r.0 in
      let (end_open, end_lasts) = fail_probes-open_duration next ts opened (omega arith) r.1 in
      let p = 2 ^ length ts in
      let regroup : cb.open_duration * 2 ^ suc (length ts) ≡ cb.open_duration * 2 * p =
        rw (pow-suc 2 (length ts)) (omega arith) in
      (
        end_open,
        end_lasts
            ∙ rw (lasts, regroup)
                (double_capped cb.open_duration cfg.open_max p (pow_pos (length ts))),
      )
