-- ===== src/Middleware/Examples.antt =====
-- The middleware at small inputs: a limiter of 2 requests a second with a burst of 3, and a backend
-- that fails until the third attempt.
use l7rp.Base.{
  ℕ, ◌≤◌, ◌≡◌, refl, ◌≢◌, false, [], ◌∷◌, none, some, arith, ltb, if◌then◌else◌, bytes, All, take,
  length,
}
use l7rp.Lb.Selector.{contains}
use l7rp.Middleware.ClientIp.{client_ip_with_trust}
use l7rp.Middleware.ClientIp.Spoofing.{client_ip_with_trust-append}
use l7rp.Middleware.Retry.{
  RetryConfig, text, AttemptBody, buffered, AttemptInfo, Result, primary_before_timer,
  hedge_before_primary, serve_sequential, serve_http, buffer_replay_body, string_in_slice,
}
use l7rp.Middleware.Retry.Attempts.{Dispatched, IsRetried, serve_sequential-IsRetried}
use l7rp.Middleware.Retry.Replay.{serve_http_replays, serve_http_truncates}
use l7rp.Middleware.Retry.Hedging.{FirstAnswer, serve_http_hedged}

client_ip_with_trust-append_example :
    client_ip_with_trust 1 (bytes "6.6.6.6,10.0.0.9") (bytes "10.0.0.1:80")
    ≡ client_ip_with_trust 1 (bytes "10.0.0.9") (bytes "10.0.0.1:80")
client_ip_with_trust-append_example =
    client_ip_with_trust-append 1 (bytes "6.6.6.6") (bytes "10.0.0.9") (bytes "10.0.0.1:80")
      (omega arith) (omega arith) (λ e. cc)

abbrev policy : RetryConfig
policy = record {
  max_attempts = 3;
  retry_methods = bytes "GET" ∷ [];
  retry_on = 502 ∷ 503 ∷ [];
  max_replayable_body = 4;
  hedge_after = 10;
  hedgeable_methods = bytes "GET" ∷ [];
}

-- Attempt `n` goes to upstream `n`, and the third one answers.
abbrev backends : AttemptInfo → AttemptBody → Result
backends info b = record {
  rec = record { headers = []; status_code = if ltb info.number 3 then 503 else 200; body = [] };
  chosen = if contains info.exclude info.number then none else some info.number;
  err = false;
  panicked = false;
}

serve_sequential-IsRetried_example :
    let run = serve_sequential backends policy (buffered (bytes "x")) 3 in
    IsRetried backends policy (buffered (bytes "x")) run.response 1 [] 2 run.dispatched
    × (length run.dispatched ≤ 3)
serve_sequential-IsRetried_example =
    serve_sequential-IsRetried backends policy (buffered (bytes "x")) 3 (omega arith)

backends-obey :
    (info : AttemptInfo) (c : AttemptBody) (u : ℕ)
    → (backends info c).chosen ≡ some u
    → contains info.exclude u ≡ false
backends-obey info c u h = ground arith

serve_http_replays_example :
    All
      (λ (d : Dispatched). d.1 ≡ buffered (bytes "body"))
      (serve_http backends policy hedge_before_primary
        (record { method = bytes "GET"; body = text (bytes "body") })).dispatched
serve_http_replays_example =
    serve_http_replays backends policy hedge_before_primary (bytes "GET") (bytes "body")
      (omega arith) (omega arith)

serve_http_truncates_example :
    let run =
      serve_http backends policy primary_before_timer
        (record { method = bytes "PUT"; body = text (bytes "longer") }) in
    (length run.dispatched ≡ 1)
    × All (λ (d : Dispatched). d.1 ≡ buffered (take 5 (bytes "longer"))) run.dispatched
    × (take 5 (bytes "longer") ≢ bytes "longer")
serve_http_truncates_example =
    serve_http_truncates backends policy primary_before_timer (bytes "PUT") (bytes "longer")
      (omega arith) (omega arith)

serve_http_hedged_example : FirstAnswer backends (buffered (bytes "body")) 10 50 20 (
    serve_http backends policy hedge_before_primary
      (record { method = bytes "GET"; body = text (bytes "body") }))
unfolding buffer_replay_body
serve_http_hedged_example =
    serve_http_hedged backends policy hedge_before_primary
      (record { method = bytes "GET"; body = text (bytes "body") }) 50 20
      (unfold string_in_slice in refl) (omega arith) (omega arith) refl (omega arith, omega arith)
