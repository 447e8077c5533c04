-- ===== src/Runtime/Reload/Survival.antt =====
-- cmd/l7rp/main.go: what the upstreams keep across a reload.
use l7rp.Base.{ℕ, ◌≡◌, ◌⊎◌, Bool, All, Has, List, Option, some, Str, Float64}
use l7rp.Config.{Config, ListenerConfig, PoolConfig, UpstreamTlsConfig}
use l7rp.Config.Manager.{load, ok}
use l7rp.Runtime.Upstreams.{Heap}
use l7rp.Runtime.Upstreams.Pointers.{Points}
use l7rp.Runtime.Pools.{RuntimePool, Process, Pools}
use l7rp.Runtime.Reload.{Runtime, ReloadError, reload_config, unchanged}
use l7rp.Runtime.Reload.Rebuilding.{old_upstreams}
use l7rp.Runtime.Reload.Keeping.{Keeps}

module _ (fl : Float64) (not_positive : fl.F → Bool) (parse : Str → Option Str)
    (load_upstream_tls : UpstreamTlsConfig → Bool)
    (pool_equal : PoolConfig fl.F → PoolConfig fl.F → Bool) where
  -- A pool that is built while the reload is at `process`.
  pub record Rebuilt (start : Heap) (pools : Pools fl.F) (p : PoolConfig fl.F)
      (pool : RuntimePool fl.F) : Type 0 where
    pub process : Process
    pub grown : Keeps start process.heap
    pub points : Points parse (old_upstreams pools p.name process.heap) 0 p.upstreams pool.upstreams

  -- What becomes of one pool of the new configuration.
  abbrev pub Round :
      Heap → Pools fl.F → List (PoolConfig fl.F) → PoolConfig fl.F → Str × RuntimePool fl.F → Type 0
  Round start pools old p e =
      (e.0 ≡ p.name)
      × ((unchanged fl not_positive parse load_upstream_tls pool_equal pools old p ≡ some e.1)
          ⊎ Rebuilt start pools p e.1)

  abbrev Among : Pools fl.F → Str × RuntimePool fl.F → Type 0
  Among acc e = Has (λ a. a ≡ e) acc

  module _ (decode : Str → Option (Config fl.F))
      (listener_equal : ListenerConfig → ListenerConfig → Bool)
      (opens : ℕ → ListenerConfig → Bool) where
    abbrev reloaded : Str → Runtime fl.F → Runtime fl.F × Option ReloadError
    reloaded =
        reload_config fl not_positive parse load_upstream_tls pool_equal decode listener_equal opens

    -- The pools of the runtime behind a reload that succeeds.
    abbrev pub Renewed : Str → Runtime fl.F → Runtime fl.F → Type 0
    Renewed text rt rt' =
        (cfg : Config fl.F) × (load decode text ≡ ok cfg)
        × All (λ e. Has (λ p. Round rt.process.heap rt.pools rt.cfg.pools p e) cfg.pools) rt'.pools
