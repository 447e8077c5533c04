-- ===== src/Upstream/Proxy/Balance.antt =====
-- internal/upstream/proxy.go: the in-flight counts while requests overlap in any way.
use l7rp.Base.{
  ℕ, ◌-◌, ◌<◌, ◌≡◌, inl, inr, Bool, true, false, List, [], ◌∷◌, ◌==◌, if◌then◌else◌, arith,
  Bool-cases, Option-cases, Float64, All, count_if, ==_iff,
}
use l7rp.Lb.Breaker.{CircuitBreakerConfig, CircuitBreaker, outcome_success}
use l7rp.Lb.Upstream.{Upstream, eligible_for_selection}
use l7rp.Lb.Selector.{Chooser, pick, eligible_set, contains}
use l7rp.Upstream.Proxy.{
  RoundTrip, Begun, forwarding, update, with_breaker, acquire, release, reserve_at, record_at,
  begin, answer,
}

-- One step of one of the requests. A request that waits or streams stands in `open`, by the id of
-- its upstream; a WebSocket enters once the upstream has switched protocols.
pub data Step (S : Type 0) : Type 0 where
  begins : (choose : Chooser S) (now t : ℕ) (exclude : List ℕ) (is_web_socket : Bool) → Step S
  answers : (t now : ℕ) → RoundTrip → (id : ℕ) → Step S
  switches : (t now : ℕ) → (id : ℕ) → Step S
  releases : (id : ℕ) → Step S

pub record System (S : Type 0) : Type 0 where
  pub selector : S
  pub pool : List Upstream
  pub open_requests : List ℕ

abbrev remove_one : ℕ → List ℕ → List ℕ
remove_one id [] = []
remove_one id (x ∷ ids) = let rest = remove_one id ids in if x == id then ids else x ∷ rest

abbrev opened : Begun → List ℕ → List ℕ
opened (forwarding id) ids = id ∷ ids
opened _ ids = ids

module _ (fl : Float64) (cfg : CircuitBreakerConfig fl.F) {S : Type 0} where
  -- A release happens once for a request that holds its upstream.
  unfoldable pub step : System S → Step S → System S
  step sys (begins choose now t exclude is_web_socket) =
      let (s, pool, begun) =
        begin fl cfg choose now t exclude is_web_socket sys.selector sys.pool in
      record { selector = s; pool = pool; open_requests = opened begun sys.open_requests }
  step sys (answers t now trip id) = record sys { pool = (answer fl cfg t now trip id sys.pool).0 }
  step sys (switches t now id) = record sys {
    pool = acquire id (record_at fl cfg t now outcome_success id sys.pool);
    open_requests = id ∷ sys.open_requests;
  }
  step sys (releases id) =
      if contains sys.open_requests id
      then record sys {
        pool = release id sys.pool;
        open_requests = remove_one id sys.open_requests;
      }
      else sys

  unfoldable pub run : System S → List (Step S) → System S
  run sys [] = sys
  run sys (x ∷ steps) = run (step sys x) steps

abbrev holders : ℕ → List ℕ → ℕ
holders id = count_if (λ x. x == id)

-- Each upstream counts the requests that hold it.
abbrev pub IsCounted : List ℕ → Upstream → Type 0
IsCounted ids u = u.in_flight ≡ holders u.id ids

abbrev pub IsBalanced : {S : Type 0} → System S → Type 0
IsBalanced sys = All (IsCounted sys.open_requests) sys.pool

-- An update that changes neither the id nor, but by what it should, the count.
All-update :
    (P Q : Upstream → Type 0) (id : ℕ) (f : Upstream → Upstream) (pool : List Upstream)
    → ((u : Upstream) → u.id ≡ id → P u → Q (f u))
    → ((u : Upstream) → (u.id == id) ≡ false → P u → Q u)
    → All P pool
    → All Q (update id f pool)
unfolding update
All-update P Q id f [] here there h = tt
All-update P Q id f (u ∷ pool) here there h =
    let rest = All-update P Q id f pool here there h.1 in
    elim (Bool-cases (u.id == id)) [
      | inl e ↦ rw e (here u ((==_iff u.id id).0 e) h.0, rest)
      | inr e ↦ rw e (there u e h.0, rest)
    ]

holders-remove_one :
    (k id : ℕ) (ids : List ℕ)
    → contains ids id ≡ true
    → holders k (remove_one id ids) ≡ (if k == id then holders k ids - 1 else holders k ids)
unfolding contains
holders-remove_one k id [] c = cc
holders-remove_one k id (x ∷ ids) c = elim (Bool-cases (x == id)) [
  | inl e ↦ ground arith
  | inr e ↦ ground (arith, holders-remove_one k id ids, holders_pos id ids)
]
  where
    holders_pos : (id : ℕ) (ids : List ℕ) → contains ids id ≡ true → 0 < holders id ids
    holders_pos id [] c = cc
    holders_pos id (x ∷ ids) c = ground (arith, holders_pos id ids)

module _ (ids : List ℕ) where
  breaker-IsCounted :
      (id : ℕ) (f : CircuitBreaker → CircuitBreaker) (pool : List Upstream)
      → All (IsCounted ids) pool
      → All (IsCounted ids) (update id (with_breaker f) pool)
  breaker-IsCounted id f pool =
      All-update (IsCounted ids) (IsCounted ids) id (with_breaker f) pool (λ u e h. h) (λ u e h. h)

  eligible_set-IsCounted :
      (now : ℕ) (pool : List Upstream) (exclude : List ℕ)
      → All (IsCounted ids) pool
      → All (IsCounted ids) (eligible_set now pool exclude).0
  unfolding eligible_set eligible_for_selection
  eligible_set-IsCounted now [] exclude h = tt
  eligible_set-IsCounted now (u ∷ pool) exclude h =
      (ground arith, eligible_set-IsCounted now pool exclude h.1)

  acquire-IsCounted :
      (id : ℕ) (pool : List Upstream)
      → All (IsCounted ids) pool
      → All (IsCounted (id ∷ ids)) (acquire id pool)
  unfolding acquire
  acquire-IsCounted id pool =
      All-update (IsCounted ids) (IsCounted (id ∷ ids)) id _ pool (λ u e h. ground arith)
        (λ u e h. ground arith)

  release-IsCounted :
      (id : ℕ) (pool : List Upstream)
      → contains ids id ≡ true
      → All (IsCounted ids) pool
      → All (IsCounted (remove_one id ids)) (release id pool)
  unfolding release
  release-IsCounted id pool c =
      All-update (IsCounted ids) (IsCounted (remove_one id ids)) id _ pool
        (λ u e h. ground (arith, holders-remove_one u.id id ids c))
        (λ u e h. ground (arith, holders-remove_one u.id id ids c))

module _ (fl : Float64) (cfg : CircuitBreakerConfig fl.F) {S : Type 0} where
  begin-IsCounted :
      (ids : List ℕ) (choose : Chooser S) (now t : ℕ) (exclude : List ℕ) (is_web_socket : Bool)
      (s : S) (pool : List Upstream)
      → All (IsCounted ids) pool
      → let (_, pool', begun) = begin fl cfg choose now t exclude is_web_socket s pool in
        All (IsCounted (opened begun ids)) pool'
  unfolding begin pick
  begin-IsCounted ids choose now t exclude is_web_socket s pool h =
      let eligible = (eligible_set now pool exclude).1 in
      let pool' = (eligible_set now pool exclude).0 in
      let kept = eligible_set-IsCounted ids now pool exclude h in
      elim (Option-cases (choose s eligible).1) [
        | inl e ↦ rw (begin, pick, e) kept
        | inr (u, e) ↦
            let reserved : All (IsCounted ids) (reserve_at fl cfg t u.id pool').0 =
              unfold reserve_at in breaker-IsCounted ids u.id _ pool' kept in
            elim (Bool-cases (reserve_at fl cfg t u.id pool').1) [
              | inr g ↦ rw (begin, pick, e, g) reserved
              | inl g ↦ elim (Bool-cases is_web_socket) [
                | inl w ↦ rw (begin, pick, e, g, w) reserved
                | inr w ↦
                    rw (begin, pick, e, g, w)
                      (acquire-IsCounted ids u.id (reserve_at fl cfg t u.id pool').0 reserved)
              ]
            ]
      ]

  step-IsBalanced : (sys : System S) (x : Step S) → IsBalanced sys → IsBalanced (step fl cfg sys x)
  unfolding step
  step-IsBalanced sys (answers t now trip id) h =
      unfold answer record_at in breaker-IsCounted sys.open_requests id _ sys.pool h
  step-IsBalanced sys (switches t now id) h =
      acquire-IsCounted sys.open_requests id (record_at fl cfg t now outcome_success id sys.pool)
        (unfold record_at in breaker-IsCounted sys.open_requests id _ sys.pool h)
  step-IsBalanced sys (releases id) h = elim (Bool-cases (contains sys.open_requests id)) [
    | inl c ↦ rw (step, c) (release-IsCounted sys.open_requests id sys.pool c h)
    | inr c ↦ rw (step, c) h
  ]
  step-IsBalanced sys (begins choose now t exclude is_web_socket) h =
      begin-IsCounted sys.open_requests choose now t exclude is_web_socket sys.selector sys.pool h

  -- However requests overlap, an upstream's in-flight count is the number of the requests that hold
  -- it, if it was so at the start.
  pub run-IsBalanced :
      (sys : System S) (steps : List (Step S)) → IsBalanced sys → IsBalanced (run fl cfg sys steps)
  unfolding run
  run-IsBalanced sys [] h = h
  run-IsBalanced sys (x ∷ steps) h =
      run-IsBalanced (step fl cfg sys x) steps (step-IsBalanced sys x h)
