-- ===== src/Runtime/Reload/Failure.antt =====
-- cmd/l7rp/main.go: what a reload that fails leaves as it was, and what it does not.
use mathlib.Core.List.{append-nil}
use l7rp.Base.{
  ◌++◌, ◌-◌, ℕ, ◌≡◌, refl, sym, ap, subst, inl, inr, Bool, false, not, List, [], ◌∷◌, Option, none,
  some, ◌==◌, keep, any, arith, Has, Option-cases, Str, Float64,
}
use l7rp.Config.{Config, ListenerConfig, PoolConfig, UpstreamTlsConfig}
use l7rp.Config.Manager.{load, Loaded, ok, err}
use l7rp.Lb.Upstream.{Upstream}
use l7rp.Runtime.Pools.{RuntimePool, Process, Pools, find_named, dereference, build_pool}
use l7rp.Runtime.Reload.{
  Runtime, opened, ReloadError, pool_failed, cancel, unchanged, rebuild, reload_pools,
  reload_config,
}

-- What requests are served by.
pub record SameService {F : Type 0} (a b : Runtime F) : Type 0 where
  pub same_pools : a.pools ≡ b.pools
  pub same_router : a.router ≡ b.router
  pub same_handlers : a.handlers ≡ b.handlers
  pub same_cfg : a.cfg ≡ b.cfg
  pub same_listeners : a.listeners ≡ b.listeners

-- The monitor of the pool with a name, if there is one.
abbrev pub monitor_of : {F : Type 0} → Pools F → Str → Option ℕ
monitor_of pools name = elim (find_named name pools) [ none ↦ none | some pool ↦ pool.monitor ]

abbrev pub Stopped : Option ℕ → List ℕ → Type 0
Stopped none running = Unit
Stopped (some i) running = any (λ j. j == i) running ≡ false

keep_others :
    (i : ℕ) (running : List ℕ) → any (λ j. j == i) (keep (λ j. not (j == i)) running) ≡ false
keep_others i [] = refl
keep_others i (j ∷ running) = ground (arith, keep_others i running)

cancel-Stopped :
    {F : Type 0} (pool : RuntimePool F) (process : Process) (o : Option ℕ)
    → pool.monitor ≡ o
    → Stopped pool.monitor (cancel pool process).running
unfolding cancel
cancel-Stopped pool process none e = rw (cancel, e) tt
cancel-Stopped pool process (some i) e = rw (cancel, e) (keep_others i process.running)

module _ (fl : Float64) (not_positive : fl.F → Bool) (parse : Str → Option Str)
    (load_upstream_tls : UpstreamTlsConfig → Bool)
    (pool_equal : PoolConfig fl.F → PoolConfig fl.F → Bool) where
  build_pool-failed :
      (p : PoolConfig fl.F) (existing : List Upstream) (process : Process)
      → (build_pool fl not_positive parse load_upstream_tls p existing process).1 ≡ none
      → (build_pool fl not_positive parse load_upstream_tls p existing process).0.running
        ≡ process.running
  unfolding build_pool
  build_pool-failed p existing process h = ground arith

  rebuild-failed :
      (pools : Pools fl.F) (p : PoolConfig fl.F) (process : Process)
      → (rebuild fl not_positive parse load_upstream_tls pool_equal pools p process).1 ≡ none
      → Stopped
          (monitor_of pools p.name)
          (rebuild fl not_positive parse load_upstream_tls pool_equal pools p process).0.running
  unfolding rebuild cancel
  rebuild-failed pools p process h = elim (Option-cases (find_named p.name pools)) [
    | inl e ↦ rw (monitor_of, e) tt
    | inr (existing, e) ↦
        let process' = cancel existing process in
        let failed =
          build_pool-failed p (dereference process.heap existing.upstreams) process'
            (rw (rebuild, e) at h) in
        rw (monitor_of, e)
          (rw (rebuild, e)
            (subst (Stopped existing.monitor) (sym failed)
              (cancel-Stopped existing process existing.monitor refl)))
  ]

  -- A pool of the new configuration that is not taken over unchanged, and whose old monitor is none
  -- of those that run.
  abbrev pub Lost : Pools fl.F → List (PoolConfig fl.F) → List ℕ → PoolConfig fl.F → Type 0
  Lost pools old running p =
      (unchanged fl not_positive parse load_upstream_tls pool_equal pools old p ≡ none)
      × Stopped (monitor_of pools p.name) running

  reload_pools-failed :
      (pools : Pools fl.F) (old ps : List (PoolConfig fl.F)) (new_pools : Pools fl.F)
      (process process' : Process)
      → reload_pools fl not_positive parse load_upstream_tls pool_equal pools old ps new_pools
          process
        ≡ (process', none)
      → Has (Lost pools old process'.running) ps
  unfolding reload_pools
  reload_pools-failed pools old [] new_pools process process' h = absurd (cc)
  reload_pools-failed pools old (p ∷ ps) new_pools process process' h =
      elim (Option-cases
        (unchanged fl not_positive parse load_upstream_tls pool_equal pools old p)) [
          | inr (existing, e) ↦ inr (
              reload_pools-failed pools old ps ((p.name, existing) ∷ new_pools) process process'
                (rw (reload_pools, e) at h))
          | inl e ↦
              let made =
                rebuild fl not_positive parse load_upstream_tls pool_equal pools p process in
              let h' = rw (reload_pools, e) at h in
              elim (Option-cases made.1) [
                | inl f ↦
                    let left : made.0 ≡ process' = ap (λ r. r.0) (rw f at h') in
                    inl (
                      e,
                      subst (λ q. Stopped (monitor_of pools p.name) q.running) left
                          (rebuild-failed pools p process f),
                    )
                | inr (pool, f) ↦ inr (
                    reload_pools-failed pools old ps ((p.name, pool) ∷ new_pools) made.0 process'
                      (rw f at h'))
              ]
        ]

module _ (fl : Float64) (not_positive : fl.F → Bool) (parse : Str → Option Str)
    (load_upstream_tls : UpstreamTlsConfig → Bool)
    (pool_equal : PoolConfig fl.F → PoolConfig fl.F → Bool) (decode : Str → Option (Config fl.F))
    (listener_equal : ListenerConfig → ListenerConfig → Bool)
    (opens : ℕ → ListenerConfig → Bool) where
  abbrev reloaded : Str → Runtime fl.F → Runtime fl.F × Option ReloadError
  reloaded =
      reload_config fl not_positive parse load_upstream_tls pool_equal decode listener_equal opens

  opened_none : (bound : List ℕ) (n : ℕ) → bound ≡ bound ++ opened n (n - n)
  opened_none bound n =
      let zero_new : n - n ≡ 0 = omega arith in
      rw zero_new (unfold opened in sym (append-nil bound))

  failed_at :
      (text : Str) (rt : Runtime fl.F) (e : ReloadError) (l : Loaded fl.F)
      → load decode text ≡ l
      → (reloaded text rt).1 ≡ some e
      → SameService rt (reloaded text rt).0
        × ((reloaded text rt).0.bound
            ≡ rt.bound
              ++ opened rt.next_listener ((reloaded text rt).0.next_listener - rt.next_listener))
  unfolding reload_config
  failed_at text rt e (err f) q h = ground (arith, opened_none rt.bound rt.next_listener)
  failed_at text rt e (ok cfg) q h = ground arith

  -- A reload that fails, at whatever step, leaves the runtime's tables of pools and listeners, the
  -- instances that serve, the router with its handlers and the configuration as they were; and
  -- every socket that the reload has opened for a listener stays bound, though none serves it.
  -- (Nothing is said of the upstreams that the pools point to, nor of the monitors that run.)
  pub reload_config-failed :
      (text : Str) (rt : Runtime fl.F) (e : ReloadError)
      → (reloaded text rt).1 ≡ some e
      → SameService rt (reloaded text rt).0
        × ((reloaded text rt).0.bound
            ≡ rt.bound
              ++ opened rt.next_listener ((reloaded text rt).0.next_listener - rt.next_listener))
  unfolding reload_config
  reload_config-failed text rt e h = failed_at text rt e (load decode text) refl h

  pool_failed_at :
      (text : Str) (rt : Runtime fl.F) (l : Loaded fl.F)
      → load decode text ≡ l
      → (reloaded text rt).1 ≡ some pool_failed
      → (cfg : Config fl.F) × (load decode text ≡ ok cfg)
        × (reload_pools fl not_positive parse load_upstream_tls pool_equal rt.pools rt.cfg.pools
              cfg.pools [] rt.process
            ≡ ((reloaded text rt).0.process, none))
  unfolding reload_config
  pool_failed_at text rt (err e) q h = absurd (ground arith)
  pool_failed_at text rt (ok cfg) q h = (cfg, q, ground arith)

  -- A reload that fails at a pool has already stopped the monitor, if there was one, of a pool that
  -- stays in service: the configuration that was loaded has a pool which is not taken over unchanged
  -- and whose old monitor is none of those that run.
  pub reload_config-pool_failed :
      (text : Str) (rt : Runtime fl.F)
      → (reloaded text rt).1 ≡ some pool_failed
      → (cfg : Config fl.F) × (load decode text ≡ ok cfg)
        × Has
            (Lost fl not_positive parse load_upstream_tls pool_equal rt.pools rt.cfg.pools
              (reloaded text rt).0.process.running)
            cfg.pools
  reload_config-pool_failed text rt h =
      let (cfg, q, failed) = pool_failed_at text rt (load decode text) refl h in
      (
        cfg,
        q,
        reload_pools-failed fl not_positive parse load_upstream_tls pool_equal rt.pools rt.cfg.pools
            cfg.pools [] rt.process (reloaded text rt).0.process failed,
      )
