-- ===== src/Middleware/Retry.antt =====
-- internal/middleware/retry.go: retries and hedged duplicates. The handlers behind are a function
-- `next` of an attempt's info and body; it may answer each attempt number as it likes. A run yields
-- the response that is flushed and what was dispatched, in order.
pub mod Attempts
pub mod Replay
pub mod Hedging
use l7rp.Base.{
  ℕ, zero, suc, ◌+◌, ◌-◌, Bool, true, false, ◌&&◌, ◌||◌, not, List, [], ◌∷◌, ◌++◌, Option, none,
  some, ◌==◌, ltb, leb, if◌then◌else◌, Str, str_eq, any, take, length,
}

pub record RetryConfig : Type 0 where
  pub max_attempts : ℕ
  pub retry_methods : List Str
  pub retry_on : List ℕ
  pub max_replayable_body : ℕ
  pub hedge_after : ℕ
  pub hedgeable_methods : List Str

-- Retry sets `MaxAttempts` to 1 at least.
unfoldable pub retry : RetryConfig → RetryConfig
retry cfg = record cfg { max_attempts = if ltb cfg.max_attempts 1 then 1 else cfg.max_attempts }

-- The body of the client's request: none, a text, or one whose reading fails.
pub data Body : Type 0 where
  no_body : Body
  text : Str → Body
  broken : Body

-- The body of an attempt's request: from the buffer, or the original, which bufferReplayBody has
-- closed unless there was none.
pub data AttemptBody : Type 0 where
  absent : AttemptBody
  buffered : Str → AttemptBody
  closed : AttemptBody

pub record Request : Type 0 where
  pub method : Str
  pub body : Body

pub record AttemptInfo : Type 0 where
  pub number : ℕ
  pub exclude : List ℕ
  pub is_hedge : Bool

pub record BufferedResponse : Type 0 where
  pub headers : List (Str × List Str)
  pub status_code : ℕ  -- 0 until it is written
  pub body : Str

-- What `next` leaves behind: the buffered response and the AttemptOutcome, and whether it panicked.
pub record Result : Type 0 where
  pub rec : BufferedResponse
  pub chosen : Option ℕ
  pub err : Bool
  pub panicked : Bool

pub record Run : Type 0 where
  pub response : BufferedResponse
  pub dispatched : List (AttemptInfo × AttemptBody)

unfoldable pub string_in_slice : List Str → Str → Bool
string_in_slice [] s = false
string_in_slice (v ∷ list) s = if str_eq v s then true else string_in_slice list s

-- io.LimitReader cuts the text at `max_size + 1` bytes. `none` is nil.
unfoldable pub buffer_replay_body : Body → ℕ → Option Str × Bool
buffer_replay_body no_body max_size = (none, false)
buffer_replay_body (text s) max_size =
    let got = take (max_size + 1) s in
    if max_size == 0 then (none, false) else (some got, ltb max_size (length got))
buffer_replay_body broken max_size = (none, false)

abbrev pub attempt_body : Body → Option Str → AttemptBody
attempt_body b (some s) = buffered s
attempt_body no_body none = absent
attempt_body _ none = closed

-- WriteHeader, Write and flushTo of bufferedResponse.
unfoldable pub write_header : ℕ → BufferedResponse → BufferedResponse
write_header code b = if b.status_code == 0 then record b { status_code = code } else b

unfoldable pub write : Str → BufferedResponse → BufferedResponse
unfolding write_header
write p b = let b' = write_header 200 b in record b' { body = b'.body ++ p }

unfoldable pub flush_to : BufferedResponse → BufferedResponse
flush_to b = record b { status_code = if b.status_code == 0 then 200 else b.status_code }

-- `if Chosen != nil { exclude = append(exclude, Chosen) }`
abbrev pub extend : List ℕ → Option ℕ → List ℕ
extend exclude none = exclude
extend exclude (some u) = exclude ++ u ∷ []

module _ (next : AttemptInfo → AttemptBody → Result) where
  unfoldable pub dispatch : AttemptInfo → AttemptBody → Result
  dispatch info b =
      let r = next info b in
      let code : ℕ = if r.rec.status_code == 0 then 502 else r.rec.status_code in
      let bad_gateway : BufferedResponse = record {
        headers = r.rec.headers;
        status_code = code;
        body = r.rec.body;
      } in
      if r.panicked then record r { err = true; rec = bad_gateway } else r

  module _ (cfg : RetryConfig) where
    unfoldable pub should_retry : Result → Bool
    should_retry r = if r.err then true else any (λ code. r.rec.status_code == code) cfg.retry_on

    -- The loop of serveSequential; `left` is `maxAttempts - attempt`.
    unfoldable pub sequential : AttemptBody → (attempt : ℕ) → List ℕ → (left : ℕ) → Run
    unfolding dispatch should_retry flush_to
    sequential b attempt exclude zero =
        let info : AttemptInfo = record { number = attempt; exclude = exclude; is_hedge = false } in
        record { response = flush_to (dispatch info b).rec; dispatched = (info, b) ∷ [] }
    sequential b attempt exclude (suc left) =
        let info : AttemptInfo = record { number = attempt; exclude = exclude; is_hedge = false } in
        let r = dispatch info b in
        let rest = sequential b (attempt + 1) (extend exclude r.chosen) left in
        if should_retry r
        then record rest { dispatched = (info, b) ∷ rest.dispatched }
        else record { response = flush_to r.rec; dispatched = (info, b) ∷ [] }

    unfoldable pub serve_sequential : AttemptBody → (max_attempts : ℕ) → Run
    unfolding sequential
    serve_sequential b max_attempts = sequential b 1 [] (max_attempts - 1)

-- How the timer and the two attempts of a hedged request come in.
pub data Race : Type 0 where
  primary_before_timer primary_before_hedge hedge_before_primary : Race

module _ (next : AttemptInfo → AttemptBody → Result) where
  unfoldable pub serve_hedged : Race → AttemptBody → Run
  unfolding dispatch flush_to
  serve_hedged race b =
      let primary : AttemptInfo = record { number = 1; exclude = []; is_hedge = false } in
      let hedge : AttemptInfo = record { number = 2; exclude = []; is_hedge = true } in
      let first = flush_to (dispatch next primary b).rec in
      let second = flush_to (dispatch next hedge b).rec in
      elim race [
        | primary_before_timer ↦ record { response = first; dispatched = (primary, b) ∷ [] }
        | primary_before_hedge ↦ record {
          response = first;
          dispatched = (primary, b) ∷ (hedge, b) ∷ [];
        }
        | hedge_before_primary ↦ record {
          response = second;
          dispatched = (primary, b) ∷ (hedge, b) ∷ [];
        }
      ]

  unfoldable pub serve_http : RetryConfig → Race → Request → Run
  unfolding retry buffer_replay_body string_in_slice serve_hedged serve_sequential
  serve_http config race req =
      let cfg = retry config in
      let (body_buf, body_too_large) = buffer_replay_body req.body cfg.max_replayable_body in
      let b = attempt_body req.body body_buf in
      let allows_retry = string_in_slice cfg.retry_methods req.method && not body_too_large in
      let allows_hedge =
        string_in_slice cfg.hedgeable_methods req.method
        && ltb 0 cfg.hedge_after
        && not body_too_large in
      if allows_hedge && leb 2 cfg.max_attempts
      then serve_hedged race b
      else serve_sequential next cfg b (if allows_retry then cfg.max_attempts else 1)
