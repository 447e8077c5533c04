-- ===== src/Runtime/Upstreams/Reuse.antt =====
-- cmd/l7rp/main.go: buildUpstreamsReusing keeps the state of the upstreams whose URLs stay.
use mathlib.Core.List.{append_assoc, append-nil, map-append}
use l7rp.Base.{
  ℕ, ◌≤◌, ◌≡◌, refl, sym, ap, ◌∙◌, inl, inr, false, List, [], ◌∷◌, ◌++◌, Option, ◌==◌,
  if◌then◌else◌, arith, map, All, All-append, All-mono, Option-cases, Str,
}
use l7rp.Config.{UpstreamConfig}
use l7rp.Health.{setting}
use l7rp.Lb.Breaker.{new_circuit_breaker}
use l7rp.Lb.Upstream.{Upstream}
use l7rp.Runtime.Upstreams.{
  Heap, by_url, set_weight, fresh, allocate, place, build_upstreams_reusing,
}

-- An upstream but for its weight.
abbrev pub state : Upstream → Upstream
state u = record u { weight = 0 }

-- `heap'` holds all upstreams of `heap` in their states, and new ones behind them.
pub record Extends (heap heap' : Heap) : Type 0 where
  pub added : List Upstream
  pub kept : map state heap'.upstreams ≡ map state heap.upstreams ++ map state added
  pub are_fresh :
      All
        (λ u.
          (u.eligible ≡ false)
          × (u.in_flight ≡ 0)
          × (u.breaker ≡ new_circuit_breaker)
          × (heap.next ≤ u.id))
        added
  pub later : heap.next ≤ heap'.next

map-state-set_weight :
    (id w : ℕ) (us : List Upstream)
    → map state (map (λ u. if u.id == id then record u { weight = w } else u) us) ≡ map state us
map-state-set_weight id w [] = refl
map-state-set_weight id w (u ∷ us) = ground (arith, map-state-set_weight id w us)

set_weight-Extends : (id w : ℕ) (heap : Heap) → Extends heap (set_weight id w heap)
unfolding set_weight
set_weight-Extends id w heap = record {
  added = [];
  kept = map-state-set_weight id w heap.upstreams ∙ sym (append-nil (map state heap.upstreams));
  are_fresh = tt;
  later = omega arith;
}

allocate-Extends : (url : Str) (w : ℕ) (heap : Heap) → Extends heap (allocate url w heap)
unfolding allocate
allocate-Extends url w heap = record {
  added = fresh heap.next url w ∷ [];
  kept = map-append state heap.upstreams (fresh heap.next url w ∷ []);
  are_fresh = ((refl, refl, refl, omega arith), tt);
  later = omega arith;
}

pub place-Extends :
    (existing : List Upstream) (url : Str) (w : ℕ) (heap : Heap)
    → Extends heap (place existing url w heap).0
unfolding place
place-Extends existing url w heap = elim (Option-cases (by_url existing url)) [
  | inl e ↦ rw (place, e) (allocate-Extends url w heap)
  | inr (id, e) ↦ rw (place, e) (set_weight-Extends id w heap)
]

Extends-trans : (a b c : Heap) → Extends a b → Extends b c → Extends a c
Extends-trans a b c x y = record {
  added = x.added ++ y.added;
  kept =
      y.kept
      ∙ ap (λ l. l ++ map state y.added) x.kept
      ∙ append_assoc (map state a.upstreams) (map state x.added) (map state y.added)
      ∙ ap (λ l. map state a.upstreams ++ l) (sym (map-append state x.added y.added));
  are_fresh =
      All-append _ x.added y.added x.are_fresh
        (All-mono _ y.added (λ u f. (f.0, f.1, f.2, omega (arith, x.later, f.3))) y.are_fresh);
  later = omega (arith, x.later, y.later);
}

module _ (parse : Str → Option Str) (existing : List Upstream) where
  -- Every upstream that exists keeps its state but for the weight, its breaker, latency, in-flight
  -- count and eligibility included, whether the pool is built or a URL stops it; the upstreams that
  -- are added have new ids, a closed breaker, nothing in flight, and are not eligible yet.
  pub build_upstreams_reusing-Extends :
      (cfgs : List UpstreamConfig) (heap : Heap)
      → Extends heap (build_upstreams_reusing parse cfgs existing heap).0
  unfolding build_upstreams_reusing
  build_upstreams_reusing-Extends [] heap = record {
    added = [];
    kept = sym (append-nil (map state heap.upstreams));
    are_fresh = tt;
    later = omega arith;
  }
  build_upstreams_reusing-Extends (uc ∷ cfgs) heap = elim (Option-cases (parse uc.url)) [
    | inl e ↦
        rw (build_upstreams_reusing, e)
          (record {
            added = [];
            kept = sym (append-nil (map state heap.upstreams));
            are_fresh = tt;
            later = omega arith;
          })
    | inr (url, e) ↦
        let heap' = (place existing url (setting uc.weight 1) heap).0 in
        rw (build_upstreams_reusing, e)
          (Extends-trans heap heap' _ (place-Extends existing url (setting uc.weight 1) heap)
            (build_upstreams_reusing-Extends cfgs heap'))
  ]
