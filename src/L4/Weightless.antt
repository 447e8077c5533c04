-- ===== src/L4/Weightless.antt =====
-- cmd/l7rp/main.go and internal/lb/weighted.go: a TCP pool whose upstreams have no positive weight.
use l7rp.Base.{
  ℕ, suc, ◌+◌, ◌≤◌, ◌≡◌, refl, ap, subst, ◌∙◌, inl, inr, Bool, true, List, [], ◌∷◌, Option, none,
  some, arith, All, Option-cases, Str, bytes, ◌++◌, Float64, length,
}
use l7rp.Config.{TcpUpstreamConfig}
use l7rp.Lb.Breaker.{CircuitBreakerConfig, new_circuit_breaker, current_state, advance_locked}
use l7rp.Lb.Selector.{pick, eligible_set, contains}
use l7rp.Lb.Upstream.{Upstream, eligible_for_selection}
use l7rp.Lb.WeightedRoundRobin.{WeightedRoundRobin, Round, weigh, weigh_all, choose_weighted}
use l7rp.L4.{no_upstream, weight_of, tcp_upstream, build_tcp_upstreams, connect}

abbrev IsWeightless : Upstream → Type 0
IsWeightless u = u.weight ≡ 0

-- An upstream as it stands when its pool has been built.
abbrev IsFresh : Upstream → Type 0
IsFresh u = (id : ℕ) × (url : Str) × (uc : TcpUpstreamConfig) × (tcp_upstream id url uc ≡ u)

weigh_all-eq :
    (pool : List ℕ) (r : Round) (us : List Upstream) → All IsWeightless us → weigh_all pool r us ≡ r
unfolding weigh_all weigh
weigh_all-eq pool r [] h = refl
weigh_all-eq pool r (u ∷ us) h =
    let same : weigh pool r u ≡ r = rw (weigh, h.0) in
    ap (λ q. weigh_all pool q us) same ∙ weigh_all-eq pool r us h.1

choose_weighted-eq-none :
    (w : WeightedRoundRobin) (us : List Upstream)
    → 2 ≤ length us
    → All IsWeightless us
    → (choose_weighted w us).1 ≡ none
unfolding choose_weighted
choose_weighted-eq-none w [] n h = absurd (omega arith)
choose_weighted-eq-none w (u ∷ []) n h = absurd (omega arith)
choose_weighted-eq-none w (u ∷ v ∷ us) n h =
    let start : Round = record { cw = w.cw; sum_weight = 0; best = none } in
    let left : (weigh_all w.pool start (u ∷ v ∷ us)).best ≡ none =
      ap (λ r. r.best) (weigh_all-eq w.pool start (u ∷ v ∷ us) h) in
    rw (choose_weighted, left)

ready :
    (now id : ℕ) (url : Str) (uc : TcpUpstreamConfig)
    → eligible_for_selection now (tcp_upstream id url uc) ≡ (tcp_upstream id url uc, true)
unfolding eligible_for_selection current_state advance_locked new_circuit_breaker
ready now id url uc = refl

eligible_set-fresh :
    (now : ℕ) (us : List Upstream) → All IsFresh us → eligible_set now us [] ≡ (us, us)
unfolding eligible_set contains
eligible_set-fresh now [] h = refl
eligible_set-fresh now (u ∷ us) ((id, url, uc, e), h) =
    let one : eligible_for_selection now u ≡ (u, true) =
      subst (λ v. eligible_for_selection now v ≡ (v, true)) e (ready now id url uc) in
    rw (eligible_set, one) (rw (eligible_set-fresh now us h))

-- What is built from entries without a positive weight.
build_tcp_upstreams-IsWeightless :
    (parse : Str → Option Str) (id : ℕ) (cfgs : List TcpUpstreamConfig) (us : List Upstream)
    → All (λ uc. weight_of uc.weight ≡ 0) cfgs
    → build_tcp_upstreams parse id cfgs ≡ some us
    → All IsWeightless us × All IsFresh us × (length us ≡ length cfgs)
unfolding build_tcp_upstreams
build_tcp_upstreams-IsWeightless parse id [] [] h b = (tt, tt, refl)
build_tcp_upstreams-IsWeightless parse id [] (u ∷ us) h b = absurd (cc)
build_tcp_upstreams-IsWeightless parse id (uc ∷ cfgs) us h b =
    elim (Option-cases (parse (bytes "tcp://" ++ uc.address))) [
      | inl e ↦ absurd (ground arith)
      | inr (url, e) ↦ elim (Option-cases (build_tcp_upstreams parse (id + 1) cfgs)) [
        | inl f ↦ absurd (ground arith)
        | inr (rest, f) ↦
            let made : tcp_upstream id url uc ∷ rest ≡ us = ground arith in
            let (light, new, n) = build_tcp_upstreams-IsWeightless parse (id + 1) cfgs rest h.1 f in
            subst (λ l. All IsWeightless l × All IsFresh l × (length l ≡ suc (length cfgs))) made
              ((h.0, light), ((id, url, uc, refl), new), ap suc n)
      ]
    ]

-- A TCP pool with the algorithm weighted-rr as it has been built from two entries or more, none
-- with a positive weight, as when the weights are left out, takes no connection, although all its
-- upstreams are eligible.
pub connect-no_upstream :
    (fl : Float64) (cfg : CircuitBreakerConfig fl.F) (parse : Str → Option Str)
    (cfgs : List TcpUpstreamConfig) (us : List Upstream) (w : WeightedRoundRobin) (now t t' : ℕ)
    (dials : Bool)
    → 2 ≤ length cfgs
    → All (λ uc. weight_of uc.weight ≡ 0) cfgs
    → build_tcp_upstreams parse 0 cfgs ≡ some us
    → (eligible_set now us [] ≡ (us, us))
      × ((connect fl cfg choose_weighted now t t' dials w us).2 ≡ no_upstream)
unfolding connect pick
connect-no_upstream fl cfg parse cfgs us w now t t' dials n h b =
    let (light, new, same) = build_tcp_upstreams-IsWeightless parse 0 cfgs us h b in
    let all = eligible_set-fresh now us new in
    let none_chosen = choose_weighted-eq-none w us (omega arith) light in
    (all, rw (connect, pick, all) (rw none_chosen))
