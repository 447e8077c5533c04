-- ===== src/Lb/Breaker/Probes.antt =====
-- internal/lb/circuit.go: the half-open phase, its probe slots and its ends.
use l7rp.Base.{
  ℕ, suc, ◌+◌, ◌-◌, ◌<◌, min, ◌≡◌, refl, ◌≢◌, List, [], ◌∷◌, false, arith, ltb, Bool-cases, inl,
  inr, if◌then◌else◌, length, All, Float64,
}
use l7rp.Lb.Breaker.{
  breaker_closed, breaker_half_open, outcome_success, outcome_failure, outcome_cancellation,
  CircuitBreakerConfig, CircuitBreaker, Call, asks_state, records, reserves, advance_locked,
  current_state, record_in, record_outcome, reserve_in, reserve, step, run,
}

abbrev pub IsNoFailure : Call → Type 0
IsNoFailure (records t now outcome) = outcome ≢ outcome_failure
IsNoFailure _ = Unit

-- The successes that a history of calls reports.
abbrev pub successes : List Call → ℕ
successes [] = 0
successes (records t now outcome_success ∷ cs) = suc (successes cs)
successes (_ ∷ cs) = successes cs

module _ (fl : Float64) (cfg : CircuitBreakerConfig fl.F) where
  -- How many of the Reserve calls at these readings are admitted.
  abbrev pub admits : CircuitBreaker → List ℕ → ℕ
  admits cb [] = 0
  admits cb (t ∷ ts) =
      let (cb', admitted) = reserve fl cfg t cb in
      let rest = admits cb' ts in if admitted then suc rest else rest

  -- However many ask, a half-open phase admits what is left of its `half_open_probes` slots.
  pub admits-half_open :
      (cb : CircuitBreaker) (ts : List ℕ)
      → cb.state ≡ breaker_half_open
      → admits cb ts ≡ min (length ts) (cfg.half_open_probes - cb.probes_admitted)
  unfolding reserve reserve_in advance_locked
  admits-half_open cb [] h = omega arith
  admits-half_open cb (t ∷ ts) h = elim (Bool-cases (ltb cb.probes_admitted cfg.half_open_probes)) [
    | inl e ↦
        ground
          (arith, admits-half_open (record cb { probes_admitted = cb.probes_admitted + 1 }) ts h)
    | inr e ↦ ground (arith, admits-half_open cb ts h)
  ]

  record Probing (cb : CircuitBreaker) (admitted done : ℕ) : Type 0 where
    half_open_now : cb.state ≡ breaker_half_open
    slots : cb.probes_admitted ≡ admitted
    succeeded : cb.probes_succeeded ≡ done

  step-Probing :
      (cb : CircuitBreaker) (c : Call) (done : ℕ)
      → Probing cb cfg.half_open_probes done
      → IsNoFailure c
      → done + successes (c ∷ []) < cfg.half_open_probes
      → Probing (step fl cfg cb c) cfg.half_open_probes (done + successes (c ∷ []))
  unfolding step current_state reserve reserve_in record_outcome record_in advance_locked
  step-Probing cb (asks_state now) done p n h = ground arith
  step-Probing cb (records t now outcome_success) done p n h = ground arith
  step-Probing cb (records t now outcome_failure) done p n h = absurd (n refl)
  step-Probing cb (records t now outcome_cancellation) done p n h = ground arith
  step-Probing cb (reserves now) done p n h = ground arith

  successes-cons :
      (c : Call) (cs : List Call) → successes (c ∷ cs) ≡ successes (c ∷ []) + successes cs
  successes-cons (asks_state now) cs = omega arith
  successes-cons (records t now outcome_success) cs = omega arith
  successes-cons (records t now outcome_failure) cs = omega arith
  successes-cons (records t now outcome_cancellation) cs = omega arith
  successes-cons (reserves now) cs = omega arith

  run-Probing :
      (cb : CircuitBreaker) (cs : List Call) (done : ℕ)
      → Probing cb cfg.half_open_probes done
      → All IsNoFailure cs
      → done + successes cs < cfg.half_open_probes
      → Probing (run fl cfg cb cs) cfg.half_open_probes (done + successes cs)
  unfolding run
  run-Probing cb [] done p n h = ground arith
  run-Probing cb (c ∷ cs) done p n h =
      let split = successes-cons c cs in
      let s = successes (c ∷ []) in
      let next = step-Probing cb c done p n.0 (omega arith) in
      let end = run-Probing (step fl cfg cb c) cs (done + s) next n.1 (omega arith) in
      record { half_open_now = end.half_open_now; slots = end.slots; succeeded = omega arith }

  -- The slots of a half-open phase are not given back. Once all are taken, and as long as no failure
  -- and fewer than `half_open_probes` successes are reported, the breaker stays half-open and
  -- Reserve refuses at every instant, whatever the calls and however late: a probe that ends in a
  -- cancellation, or in no report, blocks the upstream.
  pub half_open_stuck :
      (cb : CircuitBreaker) (cs : List Call) (now : ℕ)
      → cb.state ≡ breaker_half_open
      → cb.probes_admitted ≡ cfg.half_open_probes
      → All IsNoFailure cs
      → cb.probes_succeeded + successes cs < cfg.half_open_probes
      → ((run fl cfg cb cs).state ≡ breaker_half_open)
        × ((reserve fl cfg now (run fl cfg cb cs)).1 ≡ false)
  unfolding reserve reserve_in advance_locked
  half_open_stuck cb cs now h a n less =
      let p : Probing cb cfg.half_open_probes cb.probes_succeeded = record {
        half_open_now = h;
        slots = a;
        succeeded = refl;
      } in
      let end = run-Probing cb cs cb.probes_succeeded p n less in (end.half_open_now, ground arith)

  abbrev pub report_successes : CircuitBreaker → List (ℕ × ℕ) → CircuitBreaker
  report_successes cb [] = cb
  report_successes cb ((t, now) ∷ rest) =
      report_successes (record_outcome fl cfg t now outcome_success cb) rest

  -- A half-open breaker closes with the last success that it was waiting for, and then its window is
  -- empty and its open duration is `open_min` again. Successes count whether or not Reserve admitted
  -- their requests.
  pub report_successes-closed :
      (cb : CircuitBreaker) (reports : List (ℕ × ℕ))
      → cb.state ≡ breaker_half_open
      → 0 < length reports
      → cb.probes_succeeded + length reports ≡ cfg.half_open_probes
      → let end = report_successes cb reports in
        (end.state ≡ breaker_closed)
        × (end.samples ≡ [])
        × (end.open_duration ≡ cfg.open_min)
        × (end.probes_admitted ≡ 0)
  unfolding record_outcome record_in advance_locked
  report_successes-closed cb [] h p e = absurd (omega arith)
  report_successes-closed cb ((t, now) ∷ []) h p e = ground arith
  report_successes-closed cb ((t, now) ∷ r ∷ rest) h p e = ground (
    arith,
    report_successes-closed (record cb { probes_succeeded = cb.probes_succeeded + 1 }) (r ∷ rest) h
        (omega arith) (omega arith),
  )
