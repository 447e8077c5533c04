-- ===== src/Runtime/Upstreams.antt =====
-- cmd/l7rp/main.go: the upstreams of a pool, of which a rebuilt one keeps those whose URLs stay. A
-- pointer is an id, and the heap holds what it points to. `parse` is url.Parse and the String of
-- what it returns.
pub mod Reuse
pub mod Pointers
mod Examples
use l7rp.Base.{
  ℕ, ◌+◌, Bool, false, List, [], ◌∷◌, ◌++◌, Option, none, some, ◌==◌, if◌then◌else◌, map, Str,
  str_eq,
}
use l7rp.Config.{UpstreamConfig}
use l7rp.Health.{setting}
use l7rp.Lb.Breaker.{new_circuit_breaker}
use l7rp.Lb.Upstream.{Upstream}

pub record Heap : Type 0 where
  pub upstreams : List Upstream
  pub next : ℕ

-- byURL: of existing upstreams with one URL, the last.
unfoldable pub by_url : List Upstream → Str → Option ℕ
by_url [] url = none
by_url (u ∷ existing) url = elim (by_url existing url) [
  | some id ↦ some id
  | none ↦ if str_eq u.url url then some u.id else none
]

-- `reused.Weight = weight`
unfoldable pub set_weight : ℕ → ℕ → Heap → Heap
set_weight id weight heap = record heap {
  upstreams = map (λ u. if u.id == id then record u { weight = weight } else u) heap.upstreams;
}

abbrev pub fresh : ℕ → Str → ℕ → Upstream
fresh id url weight = record {
  id = id;
  url = url;
  weight = weight;
  eligible = false;
  in_flight = 0;
  latency_ewma = 0;
  last_update = 0;
  breaker = new_circuit_breaker;
}

unfoldable pub allocate : Str → ℕ → Heap → Heap
allocate url weight heap = record {
  upstreams = heap.upstreams ++ fresh heap.next url weight ∷ [];
  next = heap.next + 1;
}

-- One upstream: what stands in the heap after it, and its pointer.
unfoldable pub place : List Upstream → Str → ℕ → Heap → Heap × ℕ
unfolding set_weight allocate
place existing url weight heap = elim (by_url existing url) [
  | some id ↦ (set_weight id weight heap, id)
  | none ↦ (allocate url weight heap, heap.next)
]

module _ (parse : Str → Option Str) where
  -- `none` is the error that a URL does not parse.
  unfoldable pub build_upstreams_reusing :
      List UpstreamConfig → List Upstream → Heap → Heap × Option (List ℕ)
  unfolding place
  build_upstreams_reusing [] existing heap = (heap, some [])
  build_upstreams_reusing (uc ∷ cfgs) existing heap = elim (parse uc.url) [
    | none ↦ (heap, none)
    | some url ↦
        let (heap', id) = place existing url (setting uc.weight 1) heap in
        let (heap'', ids) = build_upstreams_reusing cfgs existing heap' in
        (heap'', elim ids [ none ↦ none | some rest ↦ some (id ∷ rest) ])
  ]
