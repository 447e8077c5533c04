-- ===== src/Upstream/Proxy.antt =====
-- internal/upstream/proxy.go: a request from Pick to the release of its upstream. The upstreams are
-- shared by all requests, so ServeHTTP is cut where it waits for the transport: `begin` runs up to
-- RoundTrip, `answer` from its return to the response, and `release` is the deferred decrement. A
-- request refers to its upstream by id. Metrics and spans are left out.
pub mod Balance
pub mod Exclusion
mod Examples
use l7rp.Base.{
  ℕ, ◌+◌, ◌-◌, Bool, true, false, ◌&&◌, not, List, [], ◌∷◌, ◌++◌, Option, none, some, ◌==◌, leb,
  if◌then◌else◌, Float64, map, Str,
}
use l7rp.Lb.Breaker.{
  CircuitBreakerConfig, CircuitBreaker, BreakerOutcome, outcome_success, outcome_failure,
  outcome_cancellation, reserve, record_outcome,
}
use l7rp.Lb.Upstream.{Upstream}
use l7rp.Lb.Selector.{Chooser, pick}

-- What r.Context().Err() is when the transport has returned an error.
pub data ContextErr : Type 0 where
  alive deadline_exceeded canceled : ContextErr

-- What RoundTrip returns.
pub data RoundTrip : Type 0 where
  transport_error : ContextErr → RoundTrip
  response : (status_code : ℕ) → RoundTrip

-- How `begin` ends: with a 503, in serveWebSocket, or waiting for the transport.
pub data Begun : Type 0 where
  no_eligible_upstream : Begun
  breaker_open : (id : ℕ) → Begun
  upgrading : (id : ℕ) → Begun
  forwarding : (id : ℕ) → Begun

-- What the handler leaves in the AttemptOutcome, or nothing where it does not touch a field.
pub record AttemptOutcome : Type 0 where
  pub chosen : Option ℕ
  pub err : Bool

-- What the monitor's RecordOutcome is called with, if it is: the `isError`.
pub record Answered : Type 0 where
  pub status_code : ℕ
  pub err : Bool
  pub passive : Option Bool

-- Writes to the upstream that a request holds.
unfoldable pub update : ℕ → (Upstream → Upstream) → List Upstream → List Upstream
update id f [] = []
update id f (u ∷ pool) = (if u.id == id then f u else u) ∷ update id f pool

unfoldable pub find_breaker : ℕ → List Upstream → Option CircuitBreaker
find_breaker id [] = none
find_breaker id (u ∷ pool) =
    let rest = find_breaker id pool in if u.id == id then some u.breaker else rest

abbrev pub with_breaker : (CircuitBreaker → CircuitBreaker) → Upstream → Upstream
with_breaker f u = record u { breaker = f u.breaker }

unfoldable pub acquire : ℕ → List Upstream → List Upstream
unfolding update
acquire id = update id (λ u. record u { in_flight = u.in_flight + 1 })

unfoldable pub release : ℕ → List Upstream → List Upstream
unfolding update
release id = update id (λ u. record u { in_flight = u.in_flight - 1 })

abbrev pub outcome_of : Begun → AttemptOutcome
outcome_of no_eligible_upstream = record { chosen = none; err = true }
outcome_of (breaker_open id) = record { chosen = some id; err = false }
outcome_of (upgrading id) = record { chosen = some id; err = false }
outcome_of (forwarding id) = record { chosen = some id; err = false }

abbrev pub is_cancelled : ContextErr → Bool
is_cancelled alive = false
is_cancelled _ = true

abbrev pub breaker_outcome : RoundTrip → BreakerOutcome
breaker_outcome (transport_error alive) = outcome_failure
breaker_outcome (transport_error _) = outcome_cancellation
breaker_outcome (response code) = if leb 500 code then outcome_failure else outcome_success

abbrev pub error_status : ContextErr → ℕ
error_status deadline_exceeded = 504
error_status _ = 502

abbrev pub answered : RoundTrip → Answered
answered (transport_error ctx_err) = record {
  status_code = error_status ctx_err;
  err = true;
  passive = if is_cancelled ctx_err then none else some true;
}
answered (response code) = record { status_code = code; err = false; passive = some (leb 500 code) }

module _ (fl : Float64) (cfg : CircuitBreakerConfig fl.F) where
  -- Reserve on the breaker of the upstream.
  unfoldable pub reserve_at : ℕ → ℕ → List Upstream → List Upstream × Bool
  unfolding update find_breaker
  reserve_at now id pool =
      let granted : Bool = elim (find_breaker id pool) [
        | none ↦ false
        | some cb ↦ (reserve fl cfg now cb).1
      ] in
      (update id (with_breaker (λ cb. (reserve fl cfg now cb).0)) pool, granted)

  unfoldable pub record_at : (t now : ℕ) → BreakerOutcome → ℕ → List Upstream → List Upstream
  unfolding update
  record_at t now outcome id = update id (with_breaker (record_outcome fl cfg t now outcome))

  -- `now` is the reading of Pick, `t` that of Reserve.
  unfoldable pub begin :
      {S : Type 0}
      → Chooser S
      → (now t : ℕ) → (exclude : List ℕ) → (is_web_socket : Bool) → S
      → List Upstream
      → S × List Upstream × Begun
  unfolding reserve_at acquire
  begin choose now t exclude is_web_socket s pool =
      let (s', pool', chosen) = pick choose now s pool exclude in
      elim chosen [
        | none ↦ (s', pool', no_eligible_upstream)
        | some u ↦
            let (pool'', granted) = reserve_at t u.id pool' in
            if not granted
            then (s', pool'', breaker_open u.id)
            else if is_web_socket
            then (s', pool'', upgrading u.id)
            else (s', acquire u.id pool'', forwarding u.id)
      ]

  unfoldable pub answer : (t now : ℕ) → RoundTrip → ℕ → List Upstream → List Upstream × Answered
  unfolding record_at
  answer t now trip id pool = (record_at t now (breaker_outcome trip) id pool, answered trip)
