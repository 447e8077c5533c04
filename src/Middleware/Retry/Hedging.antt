-- ===== src/Middleware/Retry/Hedging.antt =====
-- internal/middleware/retry.go: what a hedged request does and does not do.
use l7rp.Base.{
  ℕ, ◌+◌, ◌≤◌, ◌<◌, ◌≡◌, refl, ◌⊎◌, inl, inr, true, false, [], ◌∷◌, arith, ltb, leb, lt→ltb, le→leb,
}
use l7rp.Middleware.Retry.{
  RetryConfig, AttemptBody, AttemptInfo, Result, Race, Run, Request, retry, attempt_body,
  buffer_replay_body, string_in_slice, dispatch, flush_to, serve_hedged, serve_http,
  primary_before_timer, primary_before_hedge, hedge_before_primary,
}

-- Where the answers come in when the primary attempt takes `primary` and the hedge, which is sent
-- after `hedge_after`, takes `hedge`; of two that come at one instant, select takes either.
abbrev pub Happens : (hedge_after primary hedge : ℕ) → Race → Type 0
Happens hedge_after primary hedge primary_before_timer = primary ≤ hedge_after
Happens hedge_after primary hedge primary_before_hedge =
    (hedge_after ≤ primary) × (primary ≤ hedge_after + hedge)
Happens hedge_after primary hedge hedge_before_primary =
    (hedge_after ≤ primary) × (hedge_after + hedge ≤ primary)

abbrev pub primary_info : AttemptInfo
primary_info = record { number = 1; exclude = []; is_hedge = false }

abbrev pub hedge_info : AttemptInfo
hedge_info = record { number = 2; exclude = []; is_hedge = true }

-- What a run comes to: only the primary attempt, whose answer is there by `hedge_after`; or both,
-- and the client gets the answer that is there first.
abbrev pub FirstAnswer :
    (AttemptInfo → AttemptBody → Result)
    → AttemptBody
    → (hedge_after primary hedge : ℕ) → Run
    → Type 0
FirstAnswer next b hedge_after primary hedge run =
    ((run.dispatched ≡ (primary_info, b) ∷ [])
      × (run.response ≡ flush_to (dispatch next primary_info b).rec)
      × (primary ≤ hedge_after))
    ⊎ ((run.dispatched ≡ (primary_info, b) ∷ (hedge_info, b) ∷ [])
        × (hedge_after ≤ primary)
        × (((run.response ≡ flush_to (dispatch next primary_info b).rec)
              × (primary ≤ hedge_after + hedge))
            ⊎ ((run.response ≡ flush_to (dispatch next hedge_info b).rec)
                × (hedge_after + hedge ≤ primary))))

serve_hedged-first :
    (next : AttemptInfo → AttemptBody → Result) (b : AttemptBody) (hedge_after primary hedge : ℕ)
    (race : Race)
    → Happens hedge_after primary hedge race
    → FirstAnswer next b hedge_after primary hedge (serve_hedged next race b)
unfolding serve_hedged
serve_hedged-first next b hedge_after primary hedge primary_before_timer h = inl (refl, refl, h)
serve_hedged-first next b hedge_after primary hedge primary_before_hedge h =
    inr (refl, h.0, inl (refl, h.1))
serve_hedged-first next b hedge_after primary hedge hedge_before_primary h =
    inr (refl, h.0, inr (refl, h.1))

-- A request whose method may be hedged, with `hedge_after` set, two attempts or more allowed and a
-- body that is not too large: if the primary attempt answers before the timer it is the only one,
-- and else a hedge is sent too, with the same body and no upstream excluded, and the client gets
-- the answer that is there first, whatever it is: one that calls for a retry is flushed all the
-- same, however many attempts are allowed. (The order in which things come in is one that the times
-- of the attempts allow.)
pub serve_http_hedged :
    (next : AttemptInfo → AttemptBody → Result) (config : RetryConfig) (race : Race) (req : Request)
    (primary hedge : ℕ)
    → string_in_slice config.hedgeable_methods req.method ≡ true
    → 0 < config.hedge_after
    → 1 < config.max_attempts
    → (buffer_replay_body req.body config.max_replayable_body).1 ≡ false
    → Happens config.hedge_after primary hedge race
    → FirstAnswer next
        (attempt_body req.body (buffer_replay_body req.body config.max_replayable_body).0)
        config.hedge_after
        primary
        hedge
        (serve_http next config race req)
unfolding serve_http retry
serve_http_hedged next config race req primary hedge m t n small h =
    let timer : ltb 0 config.hedge_after ≡ true = lt→ltb 0 config.hedge_after t in
    let many : ltb config.max_attempts 1 ≡ false = ground arith in
    let two : leb 2 config.max_attempts ≡ true = le→leb 2 config.max_attempts n in
    let b = attempt_body req.body (buffer_replay_body req.body config.max_replayable_body).0 in
    rw (m, timer, small, many, two)
      (serve_hedged-first next b config.hedge_after primary hedge race h)
