-- ===== src/Upstream/Proxy/Exclusion.antt =====
-- internal/upstream/proxy.go under internal/middleware/retry.go: the upstreams of one request's attempts.
use l7rp.Base.{
  ℕ, ◌≡◌, sym, ◌∙◌, ap, Bool, true, false, List, [], ◌∷◌, none, some, arith, inl, inr, Bool-cases,
  Option-cases, Float64, Has, Str, bytes,
}
use l7rp.Lb.Breaker.{CircuitBreakerConfig}
use l7rp.Lb.Upstream.{Upstream, eligible_for_selection}
use l7rp.Lb.Selector.{Chooser, IsChooser, contains, pick}
use l7rp.Http.{Header}
use l7rp.Upstream.Response.{write_error, copy_response}
use l7rp.Lb.Selector.Laws.{contains-any, is_selectable, at_instant, pick-selectable}
use l7rp.Middleware.Retry.{
  RetryConfig, AttemptInfo, AttemptBody, BufferedResponse, Result, serve_sequential,
}
use l7rp.Middleware.Retry.Attempts.{choices, IsFresh, serve_sequential-IsFresh}
use l7rp.Upstream.Proxy.{
  ContextErr, deadline_exceeded, error_status, RoundTrip, transport_error, response, Begun,
  no_eligible_upstream, breaker_open, upgrading, forwarding, outcome_of, answered, begin,
  reserve_at,
}

at_instant-id : (now : ℕ) (v : Upstream) → (at_instant now v).id ≡ v.id
unfolding eligible_for_selection
at_instant-id now v = ground arith

selectable-allowed :
    (now : ℕ) (exclude : List ℕ) (u : Upstream) (pool : List Upstream)
    → Has (λ v. (is_selectable now exclude v ≡ true) × (at_instant now v ≡ u)) pool
    → contains exclude u.id ≡ false
selectable-allowed now exclude u [] h = absurd h
selectable-allowed now exclude u (v ∷ pool) (inl (chosen, same)) =
    let one : u.id ≡ v.id = sym (ap (λ x. x.id) same) ∙ at_instant-id now v in
    rw one (contains-any exclude v.id ∙ ground arith)
selectable-allowed now exclude u (v ∷ pool) (inr h) = selectable-allowed now exclude u pool h

module _ (fl : Float64) (cfg : CircuitBreakerConfig fl.F) {S : Type 0} (choose : Chooser S) where
  -- The handler reports the upstream that Pick returned, however it goes on.
  begin-chosen :
      (now t : ℕ) (exclude : List ℕ) (is_web_socket : Bool) (s : S) (pool : List Upstream) (id : ℕ)
      → (outcome_of (begin fl cfg choose now t exclude is_web_socket s pool).2).chosen ≡ some id
      → (u : Upstream) × ((pick choose now s pool exclude).2 ≡ some u) × (u.id ≡ id)
  unfolding begin
  begin-chosen now t exclude is_web_socket s pool id h =
      elim (Option-cases (pick choose now s pool exclude).2) [
        | inl e ↦ absurd (let clash : none ≡ some id = rw (begin, e) at h in cc)
        | inr (u, e) ↦
            let pool' = (pick choose now s pool exclude).1 in
            (
              u,
              e,
              elim (Bool-cases (reserve_at fl cfg t u.id pool').1) [
                | inr g ↦ let same : some u.id ≡ some id = rw (begin, e, g) at h in cc
                | inl g ↦ elim (Bool-cases is_web_socket) [
                  | inl w ↦ let same : some u.id ≡ some id = rw (begin, e, g, w) at h in cc
                  | inr w ↦ let same : some u.id ≡ some id = rw (begin, e, g, w) at h in cc
                ]
              ],
            )
      ]

  begin-allowed :
      (now t : ℕ) (exclude : List ℕ) (is_web_socket : Bool) (s : S) (pool : List Upstream) (id : ℕ)
      → IsChooser choose
      → (outcome_of (begin fl cfg choose now t exclude is_web_socket s pool).2).chosen ≡ some id
      → contains exclude id ≡ false
  begin-allowed now t exclude is_web_socket s pool id c h =
      let (u, picked, same) = begin-chosen now t exclude is_web_socket s pool id h in
      let allowed =
        selectable-allowed now exclude u pool
          ((pick-selectable choose now s pool exclude c).0 u picked) in
      rw (← same) allowed

-- What an attempt meets: the selector and the pool at that time, the readings of the clock, what the
-- transport returns, and the headers, the trailers and the reads of the upstream's response.
pub record World (S : Type 0) : Type 0 where
  pub selector : S
  pub pool : List Upstream
  pub now : ℕ
  pub t : ℕ
  pub trip : RoundTrip
  pub header : Header
  pub trailer : Header
  pub reads : List (Str × Bool)

abbrev pub error_message : ContextErr → Str
error_message deadline_exceeded = bytes "gateway timeout"
error_message _ = bytes "upstream error"

-- What is written into the retrier's buffer, which cannot be hijacked.
abbrev pub written : {S : Type 0} → World S → Begun → RoundTrip → BufferedResponse
written w no_eligible_upstream trip = write_error 503 (bytes "no eligible upstream")
written w (breaker_open id) trip = write_error 503 (bytes "upstream breaker open")
written w (upgrading id) trip = write_error 500 (bytes "websocket: hijack unsupported")
written w (forwarding id) (transport_error e) = write_error (error_status e) (error_message e)
written w (forwarding id) (response code) =
    let copied =
      copy_response [] (record { header = w.header; status_code = code; trailer = w.trailer })
        w.reads in
    record { headers = copied.final_header; status_code = copied.status_code; body = copied.body }

abbrev pub err_of : Begun → RoundTrip → Bool
err_of no_eligible_upstream trip = true
err_of (forwarding id) trip = (answered trip).err
err_of _ trip = false

module _ (fl : Float64) (cfg : CircuitBreakerConfig fl.F) {S : Type 0} (choose : Chooser S) where
  -- ServeHTTP as the retrier's next handler.
  unfoldable pub attempt :
      (is_web_socket : Bool) → (AttemptInfo → World S) → AttemptInfo → AttemptBody → Result
  attempt is_web_socket world info b =
      let w = world info in
      let begun = (begin fl cfg choose w.now w.t info.exclude is_web_socket w.selector w.pool).2 in
      record {
        rec = written w begun w.trip;
        chosen = (outcome_of begun).chosen;
        err = err_of begun w.trip;
        panicked = false;
      }

  -- With a selector that keeps the contract, whatever each attempt finds: among the attempts that
  -- serveSequential makes one behind the other for one request, no two choose the same upstream.
  pub attempts-IsFresh :
      (policy : RetryConfig) (is_web_socket : Bool) (world : AttemptInfo → World S)
      (b : AttemptBody) (max_attempts : ℕ)
      → IsChooser choose
      → let next = attempt is_web_socket world in
        IsFresh next policy []
          (choices next policy (serve_sequential next policy b max_attempts).dispatched)
  attempts-IsFresh policy is_web_socket world b max_attempts c =
      serve_sequential-IsFresh (attempt is_web_socket world) policy obeys b max_attempts
    where
      obeys :
          (info : AttemptInfo) (body : AttemptBody) (id : ℕ)
          → (attempt is_web_socket world info body).chosen ≡ some id
          → contains info.exclude id ≡ false
      obeys info body id h =
          let w = world info in
          begin-allowed fl cfg choose w.now w.t info.exclude is_web_socket w.selector w.pool id c
            (unfold attempt in h)
