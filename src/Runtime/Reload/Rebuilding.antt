-- ===== src/Runtime/Reload/Rebuilding.antt =====
-- cmd/l7rp/main.go: which upstreams a rebuilt pool points to.
use l7rp.Base.{
  ℕ, ◌≡◌, subst, inl, inr, Bool, List, [], Option, none, some, arith, Bool-cases, Option-cases, Str,
  Float64,
}
use l7rp.Config.{PoolConfig, UpstreamTlsConfig}
use l7rp.Lb.Upstream.{Upstream}
use l7rp.Runtime.Settings.{Algorithm, build_selector}
use l7rp.Runtime.Upstreams.{Heap, build_upstreams_reusing}
use l7rp.Runtime.Upstreams.Pointers.{Points, pointers}
use l7rp.Runtime.Pools.{
  RuntimePool, Process, Pools, find_named, dereference, build_pool, start_pool, loads,
}
use l7rp.Runtime.Reload.{cancel, rebuild}

-- What the pool with a name points to, in a heap; nothing when there is no such pool.
abbrev pub old_upstreams : {F : Type 0} → Pools F → Str → Heap → List Upstream
old_upstreams pools name heap = elim (find_named name pools) [
  | none ↦ []
  | some existing ↦ dereference heap existing.upstreams
]

module _ (fl : Float64) (not_positive : fl.F → Bool) (parse : Str → Option Str)
    (load_upstream_tls : UpstreamTlsConfig → Bool) where
  start_pool-upstreams :
      (p : PoolConfig fl.F) (ids : List ℕ) (selector : Algorithm fl.F) (process : Process)
      → (start_pool fl not_positive parse load_upstream_tls p ids selector process).1.upstreams
        ≡ ids
  unfolding start_pool
  start_pool-upstreams p ids selector process = ground arith

  build_pool-Points :
      (p : PoolConfig fl.F) (existing : List Upstream) (process : Process) (pool : RuntimePool fl.F)
      → (build_pool fl not_positive parse load_upstream_tls p existing process).1 ≡ some pool
      → Points parse existing 0 p.upstreams pool.upstreams
  unfolding build_pool
  build_pool-Points p existing process pool h =
      let built = build_upstreams_reusing parse p.upstreams existing process.heap in
      let process' = record process { heap = built.0 } in
      elim (Option-cases built.1) [
        | inl e ↦ absurd (ground arith)
        | inr (ids, e) ↦ elim (Option-cases (build_selector fl not_positive p.selector)) [
          | inl f ↦ absurd (ground arith)
          | inr (selector, f) ↦ elim (Bool-cases (loads load_upstream_tls p.upstream_tls)) [
            | inr g ↦ absurd (ground arith)
            | inl g ↦
                let started =
                  start_pool fl not_positive parse load_upstream_tls p ids selector process' in
                let same : started.1 ≡ pool = ground arith in
                subst (λ q. Points parse existing 0 p.upstreams q.upstreams) same
                  (rw (start_pool-upstreams p ids selector process')
                    (pointers parse existing p.upstreams process.heap ids e))
          ]
        ]
      ]

  module _ (pool_equal : PoolConfig fl.F → PoolConfig fl.F → Bool) where
    pub rebuild-Points :
        (pools : Pools fl.F) (p : PoolConfig fl.F) (process : Process) (pool : RuntimePool fl.F)
        → (rebuild fl not_positive parse load_upstream_tls pool_equal pools p process).1 ≡ some pool
        → Points parse (old_upstreams pools p.name process.heap) 0 p.upstreams pool.upstreams
    unfolding rebuild
    rebuild-Points pools p process pool h = elim (Option-cases (find_named p.name pools)) [
      | inl e ↦ rw (old_upstreams, e) (build_pool-Points p [] process pool (rw (rebuild, e) at h))
      | inr (existing, e) ↦
          rw (old_upstreams, e)
            (build_pool-Points p (dereference process.heap existing.upstreams)
              (cancel existing process) pool (rw (rebuild, e) at h))
    ]
