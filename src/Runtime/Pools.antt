-- ===== src/Runtime/Pools.antt =====
-- cmd/l7rp/main.go: the pools and the routes that are built from a configuration. The monitors that
-- run are numbers, a pool's own among them; its transport is told by its connect timeout. What Go
-- calls of net/url and crypto/tls are the parameters `parse` and `load_upstream_tls`, which tells
-- whether the files load.
use l7rp.Base.{
  ℕ, ◌+◌, ◌*◌, Bool, true, List, [], ◌∷◌, Option, none, some, ◌==◌, if◌then◌else◌, map, any, Str,
  str_eq, Float64,
}
use l7rp.Config.{PoolConfig, RouteConfig, UpstreamTlsConfig, HeaderPredicateConfig}
use l7rp.Health.{setting}
use l7rp.Lb.ConsistentHash.{find}
use l7rp.Lb.Upstream.{Upstream}
use l7rp.Router.{Route, HeaderPredicate}
use l7rp.Runtime.Settings.{second, Algorithm, build_selector, Middleware, build_middleware}
use l7rp.Runtime.Upstreams.{Heap, build_upstreams_reusing}

pub record RuntimePool (F : Type 0) : Type 0 where
  pub name : Str
  pub upstreams : List ℕ
  pub selector : Algorithm F
  pub connect_timeout : ℕ
  pub monitor : Option ℕ

pub record Process : Type 0 where
  pub heap : Heap
  pub running : List ℕ  -- the monitors whose goroutine runs
  pub next_monitor : ℕ

abbrev pub Pools : Type 0 → Type 0
Pools F = List (Str × RuntimePool F)

module _ {A : Type 0} where
  unfoldable pub find_named : Str → List (Str × A) → Option A
  find_named name [] = none
  find_named name ((key, a) ∷ rest) = if str_eq key name then some a else find_named name rest

-- `u.Eligible.Store(true)` for the upstreams of a pool.
unfoldable pub set_eligible : List ℕ → Heap → Heap
set_eligible ids heap = record heap {
  upstreams =
      map (λ u. if any (λ id. u.id == id) ids then record u { eligible = true } else u)
        heap.upstreams;
}

-- What a pool's pointers lead to, in their order.
unfoldable pub dereference : Heap → List ℕ → List Upstream
unfolding find
dereference heap [] = []
dereference heap (id ∷ ids) =
    let rest = dereference heap ids in
    elim (find heap.upstreams id) [ none ↦ rest | some u ↦ u ∷ rest ]

-- loadUpstreamTLS returns no error.
abbrev pub loads : (UpstreamTlsConfig → Bool) → Option UpstreamTlsConfig → Bool
loads load_upstream_tls none = true
loads load_upstream_tls (some t) = load_upstream_tls t

module _ (fl : Float64) (not_positive : fl.F → Bool) (parse : Str → Option Str)
    (load_upstream_tls : UpstreamTlsConfig → Bool) where
  -- The pool that stands when its parts are there, with its monitor started or its upstreams
  -- eligible.
  unfoldable pub start_pool :
      PoolConfig fl.F → List ℕ → Algorithm fl.F → Process → Process × RuntimePool fl.F
  unfolding set_eligible
  start_pool p ids selector process =
      let pool : RuntimePool fl.F = record {
        name = p.name;
        upstreams = ids;
        selector = selector;
        connect_timeout = setting p.connect_timeout (5 * second);
        monitor = none;
      } in
      elim p.health.active [
        | none ↦ (record process { heap = set_eligible ids process.heap }, pool)
        | some a ↦ (
          record process {
            running = process.next_monitor ∷ process.running;
            next_monitor = process.next_monitor + 1;
          },
          record pool { monitor = some process.next_monitor },
        )
      ]

  -- `none` is an error of the URLs, the selector or the TLS files.
  unfoldable pub build_pool :
      PoolConfig fl.F → (existing : List Upstream) → Process → Process × Option (RuntimePool fl.F)
  unfolding build_upstreams_reusing start_pool build_selector
  build_pool p existing process =
      let (heap, made) = build_upstreams_reusing parse p.upstreams existing process.heap in
      let process' = record process { heap = heap } in
      elim made [
        | none ↦ (process', none)
        | some ids ↦ elim (build_selector fl not_positive p.selector) [
          | none ↦ (process', none)
          | some selector ↦
              let (process'', pool) = start_pool p ids selector process' in
              if loads load_upstream_tls p.upstream_tls
              then (process'', some pool)
              else (process', none)
        ]
      ]

-- What a route's handler is made of, from the outermost: the middlewares and the pool's proxy.
pub record Handler (F : Type 0) : Type 0 where
  pub middlewares : List (Middleware F)
  pub pool : RuntimePool F

module _ {F : Type 0} (pools : Pools F) where
  -- The routes from the i-th on, whose handlers are numbered in their order.
  unfoldable pub build_routes : ℕ → List (RouteConfig F) → Option (List Route × List (Handler F))
  unfolding find_named build_middleware
  build_routes i [] = some ([], [])
  build_routes i (rc ∷ cfgs) =
      let route : Route = record {
        name = rc.name;
        host_pattern = rc.host;
        path_prefix = rc.path_prefix;
        header_predicates =
            map
              (λ (p : HeaderPredicateConfig).
                let q : HeaderPredicate = record { name = p.name; value = p.value } in q)
              rc.header_predicates;
        handler = i;
      } in
      elim (find_named rc.pool pools) [
        | none ↦ none
        | some pool ↦ elim (build_routes (i + 1) cfgs) [
          | none ↦ none
          | some (routes, handlers) ↦
              some (
                route ∷ routes,
                record { middlewares = build_middleware rc; pool = pool } ∷ handlers,
              )
        ]
      ]
