-- ===== src/Middleware/Retry/Replay.antt =====
-- internal/middleware/retry.go: the request's body from attempt to attempt.
use l7rp.Base.{
  ℕ, zero, suc, ◌+◌, ◌-◌, ◌≤◌, ◌<◌, ◌≡◌, refl, ap, ◌≢◌, Bool, true, false, ◌&&◌, List, [], ◌∷◌,
  some, arith, ltb, leb, if◌then◌else◌, Bool-cases, inl, inr, Str, All, take, length,
}
use l7rp.Middleware.Retry.{
  RetryConfig, text, AttemptBody, buffered, AttemptInfo, Result, Race, retry, buffer_replay_body,
  string_in_slice, dispatch, should_retry, extend, sequential, serve_sequential,
  primary_before_timer, primary_before_hedge, hedge_before_primary, serve_hedged, serve_http,
}
use l7rp.Middleware.Retry.Attempts.{Dispatched}

take_all {ℓ} : {A : Type ℓ} (n : ℕ) (xs : List A) → length xs ≤ n → take n xs ≡ xs
take_all zero [] h = refl
take_all zero (x ∷ xs) h = absurd (omega arith)
take_all (suc n) [] h = refl
take_all (suc n) (x ∷ xs) h = rw (take_all n xs (omega arith))

length-take_over {ℓ} : {A : Type ℓ} (n : ℕ) (xs : List A) → n ≤ length xs → length (take n xs) ≡ n
length-take_over zero xs h = refl
length-take_over (suc n) [] h = absurd (omega arith)
length-take_over (suc n) (x ∷ xs) h = omega (arith, length-take_over n xs)

buffer_small :
    (s : Str) (size : ℕ)
    → 0 < size
    → length s ≤ size
    → buffer_replay_body (text s) size ≡ (some s, false)
unfolding buffer_replay_body
buffer_small s size p h = rw (take_all (size + 1) s (omega arith)) (ground arith)

buffer_large :
    (s : Str) (size : ℕ)
    → 0 < size
    → size < length s
    → buffer_replay_body (text s) size ≡ (some (take (size + 1) s), true)
unfolding buffer_replay_body
buffer_large s size p h = let long = length-take_over (size + 1) s (omega arith) in ground arith

module _ (next : AttemptInfo → AttemptBody → Result) (config : RetryConfig) where
  sequential_body :
      (b : AttemptBody) (n : ℕ) (exclude : List ℕ) (left : ℕ)
      → All (λ (d : Dispatched). d.1 ≡ b) (sequential next config b n exclude left).dispatched
  unfolding sequential
  sequential_body b n exclude zero = (refl, tt)
  sequential_body b n exclude (suc left) =
      let info : AttemptInfo = record { number = n; exclude = exclude; is_hedge = false } in
      let r = dispatch next info b in
      elim (Bool-cases (should_retry next config r)) [
        | inl t ↦ rw t (refl, sequential_body b (n + 1) (extend exclude r.chosen) left)
        | inr t ↦ rw t (refl, tt)
      ]

  hedged_body :
      (race : Race) (b : AttemptBody)
      → All (λ (d : Dispatched). d.1 ≡ b) (serve_hedged next race b).dispatched
  unfolding serve_hedged
  hedged_body primary_before_timer b = (refl, tt)
  hedged_body primary_before_hedge b = (refl, (refl, tt))
  hedged_body hedge_before_primary b = (refl, (refl, tt))

no_hedge : (a b c : Bool) → (a && b && false && c) ≡ false
no_hedge a b c = ground arith

no_retry : (d : Bool) → (d && false) ≡ false
no_retry d = ground arith

-- Where the body fits `max_replayable_body`, every attempt, retried or hedged, sends the body that
-- the client sent.
pub serve_http_replays :
    (next : AttemptInfo → AttemptBody → Result) (config : RetryConfig) (race : Race)
    (method s : Str)
    → 0 < config.max_replayable_body
    → length s ≤ config.max_replayable_body
    → All
        (λ (d : Dispatched). d.1 ≡ buffered s)
        (serve_http next config race (record { method = method; body = text s })).dispatched
unfolding serve_http retry
serve_http_replays next config race method s p h =
    let cfg = retry config in
    let sent = buffer_small s config.max_replayable_body p h in
    rw sent (
      either
        (string_in_slice cfg.hedgeable_methods method
          && ltb 0 cfg.hedge_after
          && true
          && leb 2 cfg.max_attempts)
        (if string_in_slice cfg.retry_methods method && true then cfg.max_attempts else 1))
  where
    either :
        (hedged : Bool) (n : ℕ)
        → All
            (λ (d : Dispatched). d.1 ≡ buffered s)
            (if hedged
              then serve_hedged next race (buffered s)
              else serve_sequential next (retry config) (buffered s) n).dispatched
    either true n = hedged_body next config race (buffered s)
    either false n =
        unfold serve_sequential in sequential_body next (retry config) (buffered s) 1 [] (n - 1)

-- A body above `max_replayable_body` is not sent whole: the one attempt that is made sends its first
-- `max_replayable_body + 1` bytes, which is another body unless that is all there is.
pub serve_http_truncates :
    (next : AttemptInfo → AttemptBody → Result) (config : RetryConfig) (race : Race)
    (method s : Str)
    → 0 < config.max_replayable_body
    → config.max_replayable_body + 1 < length s
    → let run = serve_http next config race (record { method = method; body = text s }) in
      let sent = take (config.max_replayable_body + 1) s in
      (length run.dispatched ≡ 1)
      × All (λ (d : Dispatched). d.1 ≡ buffered sent) run.dispatched
      × (sent ≢ s)
unfolding serve_http retry
serve_http_truncates next config race method s p h =
    let cfg = retry config in
    let cut = buffer_large s config.max_replayable_body p (omega arith) in
    rw cut (
      alone (string_in_slice cfg.hedgeable_methods method) (ltb 0 cfg.hedge_after)
        (leb 2 cfg.max_attempts) (string_in_slice cfg.retry_methods method))
  where
    alone :
        (a b c d : Bool)
        → let sent = take (config.max_replayable_body + 1) s in
          let run =
            if a && b && false && c
            then serve_hedged next race (buffered sent)
            else serve_sequential next
                (retry config)
                (buffered sent)
                (if d && false then (retry config).max_attempts else 1) in
          (length run.dispatched ≡ 1)
          × All (λ (d : Dispatched). d.1 ≡ buffered sent) run.dispatched
          × (sent ≢ s)
    alone a b c d =
        let size = config.max_replayable_body in
        let long = length-take_over (size + 1) s (omega arith) in
        rw (no_hedge a b c, no_retry d)
          (unfold serve_sequential sequential in
            (
              refl,
              (refl, tt),
              λ (e : take (size + 1) s ≡ s).
                  let shorter : length (take (size + 1) s) ≡ length s = ap length e in omega arith,
            ))
