-- ===== src/Lb/Breaker/Window.antt =====
-- internal/lb/circuit.go: the sliding window. The breaker trims its samples at each Record; a reader
-- thinks of the whole history of outcomes, cut to the recent ones.
pub mod Trim
use l7rp.Base.{
  ℕ, zero, suc, ◌+◌, ◌-◌, ◌≤◌, ◌<◌, max, ◌≡◌, refl, sym, ◌∙◌, ap, ◌↔◌, List, [], ◌∷◌, ◌++◌, Bool,
  true, false, not, arith, ltb, leb, Bool-cases, inl, inr, length, drop, keep, count_if, All,
  All-append, All-mono, ◌≢◌, length-append, length-drop, count_if-le-length, Float64,
}
use l7rp.Lb.Breaker.{
  breaker_closed, breaker_open, BreakerOutcome, outcome_success, outcome_failure,
  outcome_cancellation, CircuitBreakerConfig, BreakerSample, CircuitBreaker, new_circuit_breaker,
  advance_locked, drop_expired, cap_window, trim_window_locked, should_trip_locked, record_closed,
  record_in, record_outcome, failures, is_failure,
}
use Trim.{recent, IsChronological, recent-trim_window_locked, trim-trim, append-IsChronological}

module _ (fl : Float64) (cfg : CircuitBreakerConfig fl.F) where
  -- A breaker that is still closed, the last reading of the clock, and the outcomes that it was
  -- told. The readings do not go back.
  pub data Recorded : CircuitBreaker → ℕ → List BreakerSample → Type 0 where
    closed : {cb : CircuitBreaker} → cb.state ≡ breaker_closed → cb.samples ≡ [] → Recorded cb 0 []
    ignored :
        {cb : CircuitBreaker} {last : ℕ} {history : List BreakerSample} (t now : ℕ)
        → Recorded cb last history
        → Recorded (record_outcome fl cfg t now outcome_cancellation cb) last history
    observed :
        {cb : CircuitBreaker} {last : ℕ} {history : List BreakerSample} (t now : ℕ)
        → (outcome : BreakerOutcome) → Recorded cb last history
        → last ≤ now
        → (outcome ≡ outcome_cancellation → ⊥)
        → (record_outcome fl cfg t now outcome cb).state ≡ breaker_closed
        → Recorded
            (record_outcome fl cfg t now outcome cb)
            now
            (history ++ record { failure = is_failure outcome; at = now } ∷ [])

  -- The window that the breaker looks at when it is told an outcome, and whether that one trips it.
  abbrev pub Trips : List BreakerSample → Type 0
  Trips xs =
      (cfg.min_observations ≤ length xs)
      × (fl.lt cfg.failure_ratio (fl.div (fl.of_int (failures xs)) (fl.of_int (length xs))) ≡ true)

  record Agrees (cb : CircuitBreaker) (last : ℕ) (history : List BreakerSample) : Type 0 where
    closed_now : cb.state ≡ breaker_closed
    ordered : IsChronological history
    past : All (λ r. r.at ≤ last) history
    window : cb.samples ≡ trim_window_locked last cfg.window_duration cfg.window_size history

  record_closed-samples :
      (now : ℕ) (failed : Bool) (cb : CircuitBreaker)
      → (record_closed fl cfg now failed cb).state ≡ breaker_closed
      → (record_closed fl cfg now failed cb).samples
        ≡ trim_window_locked now cfg.window_duration cfg.window_size
            (cb.samples ++ record { failure = failed; at = now } ∷ [])
  unfolding record_closed
  record_closed-samples now failed cb h = ground arith

  record_outcome-closed :
      (t now : ℕ) (outcome : BreakerOutcome) (cb : CircuitBreaker)
      → cb.state ≡ breaker_closed
      → (outcome ≡ outcome_cancellation → ⊥)
      → record_outcome fl cfg t now outcome cb ≡ record_closed fl cfg now (is_failure outcome) cb
  unfolding record_outcome record_in advance_locked
  record_outcome-closed t now outcome_success cb e n = ground arith
  record_outcome-closed t now outcome_failure cb e n = ground arith
  record_outcome-closed t now outcome_cancellation cb e n = absurd (n refl)

  Agrees-observed :
      (t now last : ℕ) (outcome : BreakerOutcome) (cb : CircuitBreaker)
      (history : List BreakerSample)
      → Agrees cb last history
      → last ≤ now
      → (outcome ≡ outcome_cancellation → ⊥)
      → (record_outcome fl cfg t now outcome cb).state ≡ breaker_closed
      → Agrees
          (record_outcome fl cfg t now outcome cb)
          now
          (history ++ record { failure = is_failure outcome; at = now } ∷ [])
  Agrees-observed t now last outcome cb history a le n c =
      let step = record_outcome-closed t now outcome cb a.closed_now n in
      let s : BreakerSample = record { failure = is_failure outcome; at = now } in
      let before : All (λ r. r.at ≤ now) history =
        All-mono (λ r. r.at ≤ last) history (λ r h. omega arith) a.past in
      let longer = append-IsChronological history s before a.ordered in
      record {
        closed_now = c;
        ordered = longer;
        past = All-append (λ r. r.at ≤ now) history (s ∷ []) before (omega arith);
        window = rw step (
            record_closed-samples now (is_failure outcome) cb (rw step at c)
            ∙ rw (a.window) (
                trim-trim last now cfg.window_duration cfg.window_size history s le a.ordered
                  longer));
      }

  Recorded-Agrees :
      {cb : CircuitBreaker} {last : ℕ} {history : List BreakerSample}
      → Recorded cb last history
      → Agrees cb last history
  unfolding new_circuit_breaker record_outcome trim_window_locked cap_window drop_expired
  Recorded-Agrees (closed e empty) = record {
    closed_now = e;
    ordered = tt;
    past = tt;
    window = empty ∙ ground arith;
  }
  Recorded-Agrees (ignored t now r) = Recorded-Agrees r
  Recorded-Agrees (observed {cb} {last} {history} t now outcome r le n c) =
      Agrees-observed t now last outcome cb history (Recorded-Agrees r) le n c

  -- While the breaker is closed its samples are those of the whole history of outcomes, told at
  -- readings of the clock that do not go back, that lie within `window_duration` of the last one,
  -- and of these the last `window_size`.
  pub samples-recent :
      (cb : CircuitBreaker) (last : ℕ) (history : List BreakerSample)
      → Recorded cb last history
      → cb.samples ≡ recent last cfg.window_duration cfg.window_size history
  samples-recent cb last history r =
      let a = Recorded-Agrees r in
      a.window
      ∙ recent-trim_window_locked last cfg.window_duration cfg.window_size history a.ordered

  record_closed-open_iff :
      (now : ℕ) (failed : Bool) (cb : CircuitBreaker)
      → cb.state ≡ breaker_closed
      → ((record_closed fl cfg now failed cb).state ≡ breaker_open)
        ↔ Trips (
            trim_window_locked now cfg.window_duration cfg.window_size
              (cb.samples ++ record { failure = failed; at = now } ∷ []))
  unfolding record_closed should_trip_locked
  record_closed-open_iff now failed cb e = (λ h. ground arith, λ h. ground arith)

  -- A breaker that was closed without samples, as it is when it is new and when its probes have
  -- closed it, that has since been told a history of outcomes and not opened, and that is told one
  -- more, not a cancellation and at an instant not before the last: it opens exactly when the recent
  -- part of this history, the new outcome included (what lies within the window duration, and of
  -- that the last samples up to the window size), holds `min_observations` samples or more and a
  -- share of failures above `failure_ratio`.
  pub record_outcome-Trips_iff :
      (cb : CircuitBreaker) (last t now : ℕ) (history : List BreakerSample)
      (outcome : BreakerOutcome)
      → Recorded cb last history
      → last ≤ now
      → outcome ≢ outcome_cancellation
      → ((record_outcome fl cfg t now outcome cb).state ≡ breaker_open)
        ↔ Trips (
            recent now cfg.window_duration cfg.window_size
              (history ++ record { failure = is_failure outcome; at = now } ∷ []))
  record_outcome-Trips_iff cb last t now history outcome r le n =
      let a = Recorded-Agrees r in
      let s : BreakerSample = record { failure = is_failure outcome; at = now } in
      let before : All (λ x. x.at ≤ now) history =
        All-mono (λ x. x.at ≤ last) history (λ x h. omega arith) a.past in
      let longer = append-IsChronological history s before a.ordered in
      let d = cfg.window_duration in
      let size = cfg.window_size in
      rw
        (
          record_outcome-closed t now outcome cb a.closed_now n,
          ← recent-trim_window_locked now d size (history ++ s ∷ []) longer,
          ← trim-trim last now d size history s le a.ordered longer,
          ← a.window,
        )
        (record_closed-open_iff now (is_failure outcome) cb a.closed_now)
