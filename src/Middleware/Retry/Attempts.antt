-- ===== src/Middleware/Retry/Attempts.antt =====
-- internal/middleware/retry.go: the sequence of attempts.
use l7rp.Base.{
  ℕ, zero, suc, ◌+◌, ◌-◌, ◌≤◌, ◌<◌, ◌≡◌, refl, sym, ◌∙◌, inl, inr, Bool, true, false, List, [], ◌∷◌,
  ◌++◌, Option, none, some, arith, Bool-cases, length,
}
use l7rp.Lb.Selector.{contains}
use l7rp.Middleware.Retry.{
  RetryConfig, AttemptBody, AttemptInfo, BufferedResponse, Result, Run, flush_to, dispatch,
  should_retry, extend, sequential, serve_sequential,
}

abbrev pub Dispatched : Type 0
Dispatched = AttemptInfo × AttemptBody

module _ (next : AttemptInfo → AttemptBody → Result) (cfg : RetryConfig) where
  abbrev pub result_of : Dispatched → Result
  result_of d = dispatch next d.0 d.1

  -- The attempts of a request, told from the response: the numbers count up from `n`, each attempt
  -- excludes the upstreams that were chosen before it and sends the same body, each but the last had
  -- to be retried, and the last is the one whose response is flushed; it need not be retried, or no
  -- attempt is left.
  abbrev pub IsRetried :
      AttemptBody
      → BufferedResponse
      → (n : ℕ) → (exclude : List ℕ) → (left : ℕ) → List Dispatched
      → Type 0
  IsRetried b response n exclude left [] = ⊥
  IsRetried b response n exclude left (d ∷ []) =
      (d.0 ≡ record { number = n; exclude = exclude; is_hedge = false })
      × (d.1 ≡ b)
      × (response ≡ flush_to (result_of d).rec)
      × ((should_retry next cfg (result_of d) ≡ true) → left ≡ 0)
  IsRetried b response n exclude left (d ∷ e ∷ rest) =
      (d.0 ≡ record { number = n; exclude = exclude; is_hedge = false })
      × (d.1 ≡ b)
      × (should_retry next cfg (result_of d) ≡ true)
      × (0 < left)
      × IsRetried b response (n + 1) (extend exclude (result_of d).chosen) (left - 1) (e ∷ rest)

  retry_again :
      (b : AttemptBody) (response : BufferedResponse) (n : ℕ) (exclude : List ℕ) (left : ℕ)
      (d : Dispatched) (rest : List Dispatched)
      → d.0 ≡ record { number = n; exclude = exclude; is_hedge = false }
      → d.1 ≡ b
      → should_retry next cfg (result_of d) ≡ true
      → IsRetried b response (n + 1) (extend exclude (result_of d).chosen) left rest
      → IsRetried b response n exclude (suc left) (d ∷ rest)
  retry_again b response n exclude left d [] i s t h = absurd h
  retry_again b response n exclude left d (e ∷ rest) i s t h =
      let less : suc left - 1 ≡ left = omega arith in (i, s, t, omega arith, rw less h)

  sequential-IsRetried :
      (b : AttemptBody) (n : ℕ) (exclude : List ℕ) (left : ℕ)
      → let run = sequential next cfg b n exclude left in
        IsRetried b run.response n exclude left run.dispatched
  unfolding sequential
  sequential-IsRetried b n exclude zero = (refl, refl, refl, λ h. refl)
  sequential-IsRetried b n exclude (suc left) =
      elim (Bool-cases (should_retry next cfg (result_of (info, b)))) [
        | inl t ↦ rw t (
            retry_again b rest.response n exclude left (info, b) rest.dispatched refl refl t
              (sequential-IsRetried b (n + 1) (extend exclude (result_of (info, b)).chosen) left))
        | inr t ↦ rw t (refl, refl, refl, λ h. absurd (no_retry t h))
      ]
    where
      info : AttemptInfo
      info = record { number = n; exclude = exclude; is_hedge = false }

      rest : Run
      rest = sequential next cfg b (n + 1) (extend exclude (result_of (info, b)).chosen) left

      no_retry : {x : Bool} → x ≡ false → x ≡ true → ⊥
      no_retry p q = cc

  -- The attempts of serveSequential: at most `max_attempts`, numbered from 1, each excluding the
  -- upstreams that were chosen before it, with one body; every one but the last had to be retried,
  -- the last is flushed, and it had to be retried only if it was number `max_attempts`. (There is
  -- at least one attempt to make.)
  pub serve_sequential-IsRetried :
      (b : AttemptBody) (max_attempts : ℕ)
      → 0 < max_attempts
      → let run = serve_sequential next cfg b max_attempts in
        IsRetried b run.response 1 [] (max_attempts - 1) run.dispatched
        × (length run.dispatched ≤ max_attempts)
  unfolding serve_sequential
  serve_sequential-IsRetried b max_attempts h =
      let run = sequential next cfg b 1 [] (max_attempts - 1) in
      let all = sequential-IsRetried b 1 [] (max_attempts - 1) in
      (all, omega (arith, few b run.response 1 [] (max_attempts - 1) run.dispatched all))
    where
      few :
          (c : AttemptBody) (response : BufferedResponse) (n : ℕ) (exclude : List ℕ) (left : ℕ)
          (ds : List Dispatched)
          → IsRetried c response n exclude left ds
          → length ds ≤ left + 1
      few c response n exclude left [] k = absurd k
      few c response n exclude left (d ∷ []) k = omega arith
      few c response n exclude left (d ∷ e ∷ rest) k = omega (
        arith,
        few c response (n + 1) (extend exclude (result_of d).chosen) (left - 1) (e ∷ rest) k.4,
      )

  abbrev pub choices : List Dispatched → List ℕ
  choices [] = []
  choices (d ∷ rest) = elim ((result_of d).chosen) [
    | none ↦ choices rest
    | some u ↦ u ∷ choices rest
  ]

  -- None is among `tried`, nor among those in front of it.
  abbrev pub IsFresh : List ℕ → List ℕ → Type 0
  IsFresh tried [] = Unit
  IsFresh tried (u ∷ us) = (contains tried u ≡ false) × IsFresh (tried ++ u ∷ []) us

  IsFresh-choices :
      (d : Dispatched) (rest : List Dispatched) (tried : List ℕ)
      → ((u : ℕ) → (result_of d).chosen ≡ some u → contains tried u ≡ false)
      → IsFresh (extend tried (result_of d).chosen) (choices rest)
      → IsFresh tried (choices (d ∷ rest))
  IsFresh-choices d rest tried obeys h = go (result_of d).chosen obeys h
    where
      go :
          (o : Option ℕ)
          → ((u : ℕ) → o ≡ some u → contains tried u ≡ false)
          → IsFresh (extend tried o) (choices rest)
          → IsFresh tried
              (let us : List ℕ = elim o [ none ↦ choices rest | some u ↦ u ∷ choices rest ] in us)
      go none f k = k
      go (some u) f k = (f u refl, k)

  dispatch-chosen :
      (info : AttemptInfo) (b : AttemptBody) → (dispatch next info b).chosen ≡ (next info b).chosen
  unfolding dispatch
  dispatch-chosen info b = ground arith

  module _
      (obeys : (info : AttemptInfo) (c : AttemptBody) (u : ℕ)
        → (next info c).chosen ≡ some u
        → contains info.exclude u ≡ false) where
    sequential-IsFresh :
        (b : AttemptBody) (n : ℕ) (exclude : List ℕ) (left : ℕ)
        → IsFresh exclude (choices (sequential next cfg b n exclude left).dispatched)
    unfolding sequential
    sequential-IsFresh b n exclude zero =
        let info : AttemptInfo = record { number = n; exclude = exclude; is_hedge = false } in
        IsFresh-choices (info, b) [] exclude
          (λ u e. obeys info b u (sym (dispatch-chosen info b) ∙ e)) tt
    sequential-IsFresh b n exclude (suc left) =
        let info : AttemptInfo = record { number = n; exclude = exclude; is_hedge = false } in
        let r = result_of (info, b) in
        let fresh =
          λ (u : ℕ) (e : r.chosen ≡ some u). obeys info b u (sym (dispatch-chosen info b) ∙ e) in
        elim (Bool-cases (should_retry next cfg r)) [
          | inl t ↦ rw t (
              IsFresh-choices (info, b)
                (sequential next cfg b (n + 1) (extend exclude r.chosen) left).dispatched exclude
                fresh (sequential-IsFresh b (n + 1) (extend exclude r.chosen) left))
          | inr t ↦ rw t (IsFresh-choices (info, b) [] exclude fresh tt)
        ]

    -- Where the handlers behind never choose an upstream that the attempt excludes, no upstream is
    -- chosen by two attempts of one request.
    pub serve_sequential-IsFresh :
        (b : AttemptBody) (max_attempts : ℕ)
        → IsFresh [] (choices (serve_sequential next cfg b max_attempts).dispatched)
    unfolding serve_sequential
    serve_sequential-IsFresh b max_attempts = sequential-IsFresh b 1 [] (max_attempts - 1)
