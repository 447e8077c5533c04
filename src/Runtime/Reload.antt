-- ===== src/Runtime/Reload.antt =====
-- cmd/l7rp/main.go: reloadConfig. The deep equality of two configurations, the opening of a
-- listener and the decoder are parameters, as are those of a pool. An old monitor that does not
-- exit within its second is taken to exit later.
pub mod Failure
pub mod Keeping
pub mod Heaps
pub mod Rebuilding
pub mod Survival
mod Examples
use l7rp.Base.{
  ℕ, zero, suc, ◌+◌, ◌-◌, ◌||◌, Bool, true, false, ◌&&◌, not, List, [], ◌∷◌, ◌++◌, Option, none,
  some, ◌==◌, if◌then◌else◌, keep, Str, str_eq, Float64,
}
use l7rp.Config.{Config, ListenerConfig, PoolConfig, UpstreamTlsConfig}
use l7rp.Config.Manager.{load, ok, err}
use l7rp.Router.{Router}
use l7rp.Router.Validation.{new_router, built, rejected}
use l7rp.Runtime.Listeners.{Instance, Listeners, diff_listeners, apply}
use l7rp.Runtime.Pools.{
  RuntimePool, Process, Pools, find_named, dereference, build_pool, Handler, build_routes,
}

pub record Runtime (F : Type 0) : Type 0 where
  pub listeners : Listeners
  pub next_listener : ℕ
  pub bound : List ℕ  -- the numbers of the instances whose socket a reload has opened
  pub pools : Pools F
  pub cfg : Config F
  pub router : Router
  pub handlers : List (Handler F)
  pub process : Process

-- The numbers of the calls of listener.New that succeed: as many as `count`, from `first` on.
unfoldable pub opened : (first count : ℕ) → List ℕ
opened first zero = []
opened first (suc count) = first ∷ opened (first + 1) count

-- The sockets that are left when the retired instances have drained.
abbrev pub has_number : List (Option Instance) → ℕ → Bool
has_number [] i = false
has_number (none ∷ retired) i = has_number retired i
has_number (some l ∷ retired) i = l.number == i || has_number retired i

abbrev pub left_bound : List (Option Instance) → List ℕ → List ℕ
left_bound retired bound = keep (λ i. not (has_number retired i)) bound

pub data ReloadError : Type 0 where
  load_failed listeners_failed pool_failed routes_failed router_failed : ReloadError

module _ {F : Type 0} where
  -- indexPoolsByName: the last of a name wins.
  unfoldable pub index_pools_by_name : List (PoolConfig F) → Str → Option (PoolConfig F)
  index_pools_by_name [] name = none
  index_pools_by_name (p ∷ ps) name = elim (index_pools_by_name ps name) [
    | some found ↦ some found
    | none ↦ if str_eq p.name name then some p else none
  ]

  -- The monitor of a pool is told to stop; a pool without one has nothing to stop.
  unfoldable pub cancel : RuntimePool F → Process → Process
  cancel pool process = elim pool.monitor [
    | none ↦ process
    | some i ↦ record process { running = keep (λ j. not (j == i)) process.running }
  ]

  -- The loop over the pools that are not in the new configuration.
  unfoldable pub retire_pools : Pools F → (kept : Pools F) → Process → Process
  unfolding find_named cancel
  retire_pools [] kept process = process
  retire_pools ((name, pool) ∷ pools) kept process = elim (find_named name kept) [
    | some p ↦ retire_pools pools kept process
    | none ↦ retire_pools pools kept (cancel pool process)
  ]

module _ (fl : Float64) (not_positive : fl.F → Bool) (parse : Str → Option Str)
    (load_upstream_tls : UpstreamTlsConfig → Bool)
    (pool_equal : PoolConfig fl.F → PoolConfig fl.F → Bool) where
  -- A pool that stands unchanged, for its definition in the old configuration.
  unfoldable pub unchanged :
      Pools fl.F → List (PoolConfig fl.F) → PoolConfig fl.F → Option (RuntimePool fl.F)
  unfolding find_named index_pools_by_name
  unchanged pools old p = elim (find_named p.name pools) [
    | none ↦ none
    | some existing ↦ elim (index_pools_by_name old p.name) [
      | none ↦ none
      | some o ↦ if pool_equal o p then some existing else none
    ]
  ]

  -- The part of a round that retires the old pool and builds the new one.
  unfoldable pub rebuild :
      Pools fl.F → PoolConfig fl.F → Process → Process × Option (RuntimePool fl.F)
  unfolding find_named cancel dereference build_pool
  rebuild pools p process = elim (find_named p.name pools) [
    | none ↦ build_pool fl not_positive parse load_upstream_tls p [] process
    | some existing ↦
        build_pool fl not_positive parse load_upstream_tls p
          (dereference process.heap existing.upstreams) (cancel existing process)
  ]

  -- The loop over the pools of the new configuration; the first of the result is the last built.
  unfoldable pub reload_pools :
      Pools fl.F
      → (old new_cfgs : List (PoolConfig fl.F)) → (new_pools : Pools fl.F) → Process
      → Process × Option (Pools fl.F)
  unfolding unchanged rebuild
  reload_pools pools old [] new_pools process = (process, some new_pools)
  reload_pools pools old (p ∷ ps) new_pools process = elim (unchanged pools old p) [
    | some existing ↦ reload_pools pools old ps ((p.name, existing) ∷ new_pools) process
    | none ↦
        let (process', made) = rebuild pools p process in
        elim made [
          | none ↦ (process', none)
          | some pool ↦ reload_pools pools old ps ((p.name, pool) ∷ new_pools) process'
        ]
  ]

  module _ (decode : Str → Option (Config fl.F))
      (listener_equal : ListenerConfig → ListenerConfig → Bool)
      (opens : ℕ → ListenerConfig → Bool) where
    -- The runtime behind a reload, and the error that it logs.
    unfoldable pub reload_config : Str → Runtime fl.F → Runtime fl.F × Option ReloadError
    unfolding opened load diff_listeners reload_pools retire_pools build_routes new_router apply
    reload_config text rt = elim (load decode text) [
      | err e ↦ (rt, some load_failed)
      | ok cfg ↦
          let (done, plan, next) =
            diff_listeners listener_equal opens rt.listeners.table rt.cfg.listeners cfg.listeners
              rt.next_listener in
          let rt1 = record rt {
            next_listener = next;
            bound = rt.bound ++ opened rt.next_listener (next - rt.next_listener);
          } in
          let (process, made) = reload_pools rt.pools rt.cfg.pools cfg.pools [] rt.process in
          let rt2 = record rt1 { process = process } in
          let behind : Runtime fl.F × Option ReloadError = elim made [
            | none ↦ (rt2, some pool_failed)
            | some pools ↦
                let rt3 = record rt2 { process = retire_pools rt.pools pools process } in
                elim (build_routes pools 0 cfg.routes) [
                  | none ↦ (rt3, some routes_failed)
                  | some (routes, handlers) ↦ elim (new_router routes) [
                    | rejected e ↦ (rt3, some router_failed)
                    | built router ↦ (
                      record rt3 {
                        pools = pools;
                        router = router;
                        handlers = handlers;
                        cfg = cfg;
                        listeners = apply plan rt.listeners;
                        bound = left_bound plan.retired rt3.bound;
                      },
                      none,
                    )
                  ]
                ]
          ] in
          if done then behind else (rt1, some listeners_failed)
    ]
