-- ===== src/L4.antt =====
-- internal/l4/proxy.go, and buildTCPPool of cmd/l7rp/main.go: connections that are proxied without a
-- look into them. ServeConn is cut where the bytes are copied: `connect` runs up to the copying, and
-- `finish` from its end on. `parse` is url.Parse and the String of what it returns.
pub mod Weightless
mod Examples
use l7rp.Base.{
  ℕ, ◌+◌, ◌*◌, Bool, true, List, [], ◌∷◌, Option, none, some, if◌then◌else◌, Str, bytes, ◌++◌,
  Float64,
}
use l7rp.Base.Int.{ℤ, pos, negsuc}
use l7rp.Config.{TcpUpstreamConfig}
use l7rp.Lb.Breaker.{CircuitBreakerConfig, new_circuit_breaker, outcome_success, outcome_failure}
use l7rp.Lb.Selector.{Chooser, pick}
use l7rp.Lb.Upstream.{Upstream, record_latency}
use l7rp.Upstream.Proxy.{update, acquire, release, record_at}

-- How ServeConn gets along before it copies.
pub data Connected : Type 0 where
  no_upstream : Connected
  dial_failed : (id : ℕ) → Connected
  copying : (id : ℕ) → Connected

-- An upstream's weight is that of its configuration; a model's weight is never negative, which the
-- test `<= 0` of the selector does not tell apart.
abbrev pub weight_of : ℤ → ℕ
weight_of (pos n) = n
weight_of (negsuc n) = 0

abbrev pub tcp_upstream : ℕ → Str → TcpUpstreamConfig → Upstream
tcp_upstream id url uc = record {
  id = id;
  url = url;
  weight = weight_of uc.weight;
  eligible = true;
  in_flight = 0;
  latency_ewma = 0;
  last_update = 0;
  breaker = new_circuit_breaker;
}

module _ (parse : Str → Option Str) where
  -- The loop of buildTCPPool; `none` is the error that an address does not parse.
  unfoldable pub build_tcp_upstreams : ℕ → List TcpUpstreamConfig → Option (List Upstream)
  build_tcp_upstreams id [] = some []
  build_tcp_upstreams id (uc ∷ cfgs) = elim (parse (bytes "tcp://" ++ uc.address)) [
    | none ↦ none
    | some url ↦ elim (build_tcp_upstreams (id + 1) cfgs) [
      | none ↦ none
      | some rest ↦ some (tcp_upstream id url uc ∷ rest)
    ]
  ]

module _ (fl : Float64) (cfg : CircuitBreakerConfig fl.F) where
  -- `now` is the reading of Pick, `t` and `t'` those of Record; the breaker's Reserve is not asked.
  unfoldable pub connect :
      {S : Type 0}
      → Chooser S
      → (now t t' : ℕ) → (dials : Bool) → S
      → List Upstream
      → S × List Upstream × Connected
  unfolding pick acquire record_at
  connect choose now t t' dials s pool =
      let (s', pool', chosen) = pick choose now s pool [] in
      elim chosen [
        | none ↦ (s', pool', no_upstream)
        | some u ↦
            if dials
            then (s', acquire u.id pool', copying u.id)
            else (s', record_at fl cfg t t' outcome_failure u.id pool', dial_failed u.id)
      ]

  -- The success, the latency with its half-life of 30 seconds, and the deferred decrement.
  unfoldable pub finish : (t t' now duration : ℕ) → ℕ → List Upstream → List Upstream
  unfolding update release record_at
  finish t t' now duration id pool = release id (
      update id (record_latency fl now duration (30 * 1000000000))
        (record_at fl cfg t t' outcome_success id pool))
