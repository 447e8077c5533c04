-- ===== src/L4/Examples.antt =====
-- A TCP pool of two upstreams whose weights are left out.
use l7rp.Base.{◌≡◌, refl, true, List, [], ◌∷◌, Option, some, arith, Str, bytes}
use l7rp.Base.Int.{pos}
use l7rp.Base.Ratio.{ratio}
use l7rp.Config.{TcpUpstreamConfig}
use l7rp.Lb.Breaker.{default_circuit_breaker_config}
use l7rp.Lb.Selector.{eligible_set}
use l7rp.Lb.Upstream.{Upstream}
use l7rp.Lb.WeightedRoundRobin.{WeightedRoundRobin, choose_weighted}
use l7rp.L4.{no_upstream, tcp_upstream, build_tcp_upstreams, connect}
use l7rp.L4.Weightless.{connect-no_upstream}

abbrev parse : Str → Option Str
parse s = some s

abbrev entry : Str → TcpUpstreamConfig
entry address = record { address = address; weight = pos 0 }

abbrev cfgs : List TcpUpstreamConfig
cfgs = entry (bytes "10.0.0.1:6379") ∷ entry (bytes "10.0.0.2:6379") ∷ []

abbrev pool : List Upstream
pool =
    tcp_upstream 0 (bytes "tcp://10.0.0.1:6379") (entry (bytes "10.0.0.1:6379"))
    ∷ tcp_upstream 1 (bytes "tcp://10.0.0.2:6379") (entry (bytes "10.0.0.2:6379"))
    ∷ []

made : build_tcp_upstreams parse 0 cfgs ≡ some pool
unfolding build_tcp_upstreams
made = refl

abbrev weights : WeightedRoundRobin
weights = record { pool = 0 ∷ 1 ∷ []; cw = 0 ∷ 0 ∷ [] }

connect-no_upstream_example :
    (eligible_set 5 pool [] ≡ (pool, pool))
    × ((connect ratio
          (default_circuit_breaker_config ratio)
          choose_weighted
          5
          6
          7
          true
          weights
          pool).2
        ≡ no_upstream)
connect-no_upstream_example =
    connect-no_upstream ratio (default_circuit_breaker_config ratio) parse cfgs pool weights 5 6 7
      true (omega arith) (refl, (refl, tt)) made
