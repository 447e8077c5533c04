-- ===== src/Runtime/Reload/Heaps.antt =====
-- cmd/l7rp/main.go: what each step of a reload does to the heap.
use l7rp.Base.{
  ℕ, ◌≡◌, refl, subst, ◌∙◌, inl, inr, Bool, List, [], ◌∷◌, Option, arith, Bool-cases, Option-cases,
  Str, Float64,
}
use l7rp.Config.{PoolConfig, UpstreamTlsConfig}
use l7rp.Lb.Upstream.{Upstream}
use l7rp.Runtime.Settings.{Algorithm, build_selector}
use l7rp.Runtime.Upstreams.{build_upstreams_reusing}
use l7rp.Runtime.Upstreams.Reuse.{build_upstreams_reusing-Extends}
use l7rp.Runtime.Pools.{
  RuntimePool, Process, Pools, find_named, dereference, build_pool, start_pool, loads,
}
use l7rp.Runtime.Reload.{cancel, unchanged, rebuild, reload_pools, retire_pools}
use l7rp.Runtime.Reload.Keeping.{Keeps, Keeps-refl, Keeps-trans, Extends-Keeps, set_eligible-Keeps}

cancel-heap :
    {F : Type 0} (pool : RuntimePool F) (process : Process)
    → (cancel pool process).heap ≡ process.heap
unfolding cancel
cancel-heap pool process = ground arith

pub retire_pools-heap :
    {F : Type 0} (pools kept : Pools F) (process : Process)
    → (retire_pools pools kept process).heap ≡ process.heap
unfolding retire_pools
retire_pools-heap [] kept process = refl
retire_pools-heap ((name, pool) ∷ pools) kept process = elim (Option-cases (find_named name kept)) [
  | inl e ↦
      rw (retire_pools, e)
        (retire_pools-heap pools kept (cancel pool process) ∙ cancel-heap pool process)
  | inr (p, e) ↦ rw (retire_pools, e) (retire_pools-heap pools kept process)
]

module _ (fl : Float64) (not_positive : fl.F → Bool) (parse : Str → Option Str)
    (load_upstream_tls : UpstreamTlsConfig → Bool) where
  start_pool-Keeps :
      (p : PoolConfig fl.F) (ids : List ℕ) (selector : Algorithm fl.F) (process : Process)
      → Keeps process.heap
          (start_pool fl not_positive parse load_upstream_tls p ids selector process).0.heap
  unfolding start_pool
  start_pool-Keeps p ids selector process = elim (Option-cases p.health.active) [
    | inl e ↦ rw (start_pool, e) (set_eligible-Keeps ids process.heap)
    | inr (a, e) ↦ rw (start_pool, e) (Keeps-refl process.heap)
  ]

  build_pool-Keeps :
      (p : PoolConfig fl.F) (existing : List Upstream) (process : Process)
      → Keeps process.heap
          (build_pool fl not_positive parse load_upstream_tls p existing process).0.heap
  unfolding build_pool
  build_pool-Keeps p existing process =
      let built = build_upstreams_reusing parse p.upstreams existing process.heap in
      let process' = record process { heap = built.0 } in
      let first : Keeps process.heap built.0 =
        Extends-Keeps process.heap built.0
          (build_upstreams_reusing-Extends parse existing p.upstreams process.heap) in
      elim (Option-cases built.1) [
        | inl e ↦ rw (build_pool, e) first
        | inr (ids, e) ↦ elim (Option-cases (build_selector fl not_positive p.selector)) [
          | inl f ↦ rw (build_pool, e) (rw f first)
          | inr (selector, f) ↦ elim (Bool-cases (loads load_upstream_tls p.upstream_tls)) [
            | inr g ↦ rw (build_pool, e) (rw f (rw g first))
            | inl g ↦
                rw (build_pool, e)
                  (rw f (
                    rw g (
                      Keeps-trans process.heap built.0 _ first
                        (start_pool-Keeps p ids selector process'))))
          ]
        ]
      ]

module _ (fl : Float64) (not_positive : fl.F → Bool) (parse : Str → Option Str)
    (load_upstream_tls : UpstreamTlsConfig → Bool)
    (pool_equal : PoolConfig fl.F → PoolConfig fl.F → Bool) where
  pub rebuild-Keeps :
      (pools : Pools fl.F) (p : PoolConfig fl.F) (process : Process)
      → Keeps process.heap
          (rebuild fl not_positive parse load_upstream_tls pool_equal pools p process).0.heap
  unfolding rebuild
  rebuild-Keeps pools p process = elim (Option-cases (find_named p.name pools)) [
    | inl e ↦
        rw (rebuild, e) (build_pool-Keeps fl not_positive parse load_upstream_tls p [] process)
    | inr (existing, e) ↦
        let all = dereference process.heap existing.upstreams in
        let cancelled = cancel existing process in
        let built = build_pool fl not_positive parse load_upstream_tls p all cancelled in
        rw (rebuild, e)
          (subst (λ h. Keeps h built.0.heap) (cancel-heap existing process)
            (build_pool-Keeps fl not_positive parse load_upstream_tls p all cancelled))
  ]

  pub reload_pools-Keeps :
      (pools : Pools fl.F) (old ps : List (PoolConfig fl.F)) (new_pools : Pools fl.F)
      (process : Process)
      → Keeps process.heap
          (reload_pools fl not_positive parse load_upstream_tls pool_equal pools old ps new_pools
            process).0.heap
  unfolding reload_pools
  reload_pools-Keeps pools old [] new_pools process = Keeps-refl process.heap
  reload_pools-Keeps pools old (p ∷ ps) new_pools process =
      elim (Option-cases
        (unchanged fl not_positive parse load_upstream_tls pool_equal pools old p)) [
          | inr (existing, e) ↦
              rw (reload_pools, e)
                (reload_pools-Keeps pools old ps ((p.name, existing) ∷ new_pools) process)
          | inl e ↦
              let made =
                rebuild fl not_positive parse load_upstream_tls pool_equal pools p process in
              elim (Option-cases made.1) [
                | inl f ↦ rw (reload_pools, e) (rw f (rebuild-Keeps pools p process))
                | inr (pool, f) ↦
                    rw (reload_pools, e)
                      (rw f (
                        Keeps-trans process.heap made.0.heap _ (rebuild-Keeps pools p process)
                          (reload_pools-Keeps pools old ps ((p.name, pool) ∷ new_pools) made.0)))
              ]
        ]
