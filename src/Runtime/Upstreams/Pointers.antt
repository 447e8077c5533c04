-- ===== src/Runtime/Upstreams/Pointers.antt =====
-- cmd/l7rp/main.go: what buildUpstreamsReusing points to, and with which weights.
use l7rp.Base.{
  ℕ, zero, suc, ◌≤◌, ◌<◌, ◌≡◌, ap, subst, ◌∙◌, ◌⊎◌, inl, inr, List, [], ◌∷◌, Option, none, some,
  ◌==◌, if◌then◌else◌, arith, map, All, All-append, All-mono, Option-cases, Str,
}
use l7rp.Base.Int.{ℤ, pos, negsuc}
use l7rp.Config.{UpstreamConfig}
use l7rp.Health.{setting}
use l7rp.Lb.Upstream.{Upstream}
use l7rp.Runtime.Upstreams.{Heap, by_url, set_weight, allocate, place, build_upstreams_reusing}
use l7rp.Runtime.Upstreams.Reuse.{place-Extends}

-- The ids in a heap are below its next one.
abbrev pub IsHeap : Heap → Type 0
IsHeap heap = All (λ u. u.id < heap.next) heap.upstreams

-- What the id points to has a positive weight.
abbrev pub Weighs : List Upstream → ℕ → Type 0
Weighs us id = All (λ u. u.id ≡ id → 1 ≤ u.weight) us

module _ (id w : ℕ) (positive : 1 ≤ w) where
  abbrev reweigh : List Upstream → List Upstream
  reweigh us = map (λ u. if u.id == id then record u { weight = w } else u) us

  Weighs-set_weight_same : (us : List Upstream) → Weighs (reweigh us) id
  Weighs-set_weight_same [] = tt
  Weighs-set_weight_same (u ∷ us) = (λ e. ground arith, Weighs-set_weight_same us)

  Weighs-set_weight : (other : ℕ) (us : List Upstream) → Weighs us other → Weighs (reweigh us) other
  Weighs-set_weight other [] h = tt
  Weighs-set_weight other (u ∷ us) h = (λ e. ground (arith, h.0), Weighs-set_weight other us h.1)

  ids-set_weight :
      (next : ℕ) (us : List Upstream)
      → All (λ u. u.id < next) us
      → All (λ u. u.id < next) (reweigh us)
  ids-set_weight next [] h = tt
  ids-set_weight next (u ∷ us) h = (ground (arith, h.0), ids-set_weight next us h.1)

setting_pos : (z : ℤ) → 1 ≤ setting z 1
setting_pos (pos zero) = omega arith
setting_pos (pos (suc n)) = omega arith
setting_pos (negsuc n) = omega arith

-- What placing one upstream does to the heap.
record Placed (w : ℕ) (heap heap' : Heap) (id : ℕ) : Type 0 where
  valid : IsHeap heap'
  weighs : Weighs heap'.upstreams id
  others : (other : ℕ) → Weighs heap.upstreams other → Weighs heap'.upstreams other

place-Placed :
    (existing : List Upstream) (url : Str) (w : ℕ) (heap : Heap)
    → 1 ≤ w
    → IsHeap heap
    → Placed w heap (place existing url w heap).0 (place existing url w heap).1
unfolding place set_weight allocate
place-Placed existing url w heap p v = elim (Option-cases (by_url existing url)) [
  | inl e ↦
      rw (place, e)
        (record {
          valid =
              All-append _ heap.upstreams _ (All-mono _ heap.upstreams (λ u h. omega arith) v)
                (omega arith, tt);
          weighs =
              All-append _ heap.upstreams _
                (All-mono _ heap.upstreams (λ u h e. absurd (omega arith)) v) (λ e. p, tt);
          others = λ other h. All-append _ heap.upstreams _ h (λ e. p, tt);
        })
  | inr (id, e) ↦
      rw (place, e)
        (record {
          valid = ids-set_weight id w p heap.next heap.upstreams v;
          weighs = Weighs-set_weight_same id w p heap.upstreams;
          others = λ other h. Weighs-set_weight id w p other heap.upstreams h;
        })
]

module _ (parse : Str → Option Str) (existing : List Upstream) where
  -- Each entry has its pointer: the last existing upstream with its URL, or a new id.
  abbrev pub Points : ℕ → List UpstreamConfig → List ℕ → Type 0
  Points low [] [] = Unit
  Points low [] (id ∷ ids) = ⊥
  Points low (uc ∷ cfgs) [] = ⊥
  Points low (uc ∷ cfgs) (id ∷ ids) =
      ((url : Str) × (parse uc.url ≡ some url)
        × ((by_url existing url ≡ some id) ⊎ ((by_url existing url ≡ none) × (low ≤ id))))
      × Points low cfgs ids

  Points-mono :
      (lo hi : ℕ) (cfgs : List UpstreamConfig) (ids : List ℕ)
      → lo ≤ hi
      → Points hi cfgs ids
      → Points lo cfgs ids
  Points-mono lo hi [] [] h p = tt
  Points-mono lo hi [] (id ∷ ids) h p = p
  Points-mono lo hi (uc ∷ cfgs) [] h p = p
  Points-mono lo hi (uc ∷ cfgs) (id ∷ ids) h ((url, e, inl q), p) =
      ((url, e, inl q), Points-mono lo hi cfgs ids h p)
  Points-mono lo hi (uc ∷ cfgs) (id ∷ ids) h ((url, e, inr (q, le)), p) =
      ((url, e, inr (q, omega arith)), Points-mono lo hi cfgs ids h p)

  place-pointer :
      (url : Str) (w : ℕ) (heap : Heap)
      → (by_url existing url ≡ some (place existing url w heap).1)
        ⊎ ((by_url existing url ≡ none) × (heap.next ≤ (place existing url w heap).1))
  unfolding place
  place-pointer url w heap = elim (Option-cases (by_url existing url)) [
    | inl e ↦ inr (e, rw (place, e) (omega arith))
    | inr (id, e) ↦ inl (e ∙ rw (place, e))
  ]

  -- Each entry has its pointer, whatever the heap holds.
  pub pointers :
      (cfgs : List UpstreamConfig) (heap : Heap) (ids : List ℕ)
      → (build_upstreams_reusing parse cfgs existing heap).1 ≡ some ids
      → Points 0 cfgs ids
  unfolding build_upstreams_reusing
  pointers [] heap [] h = tt
  pointers [] heap (id ∷ ids) h = absurd (cc)
  pointers (uc ∷ cfgs) heap [] h = elim (Option-cases (parse uc.url)) [
    | inl e ↦ absurd (ground arith)
    | inr (url, e) ↦
        let heap' = (place existing url (setting uc.weight 1) heap).0 in
        elim (Option-cases (build_upstreams_reusing parse cfgs existing heap').1) [
          | inl e' ↦ absurd (ground arith)
          | inr (rest, e') ↦ absurd (ground arith)
        ]
  ]
  pointers (uc ∷ cfgs) heap (id ∷ ids) h = elim (Option-cases (parse uc.url)) [
    | inl e ↦ absurd (ground arith)
    | inr (url, e) ↦
        let heap' = (place existing url (setting uc.weight 1) heap).0 in
        elim (Option-cases (build_upstreams_reusing parse cfgs existing heap').1) [
          | inl e' ↦ absurd (ground arith)
          | inr (rest, e') ↦
              let first : (place existing url (setting uc.weight 1) heap).1 ≡ id = ground arith in
              let same : rest ≡ ids = ground arith in
              let at_first = place-pointer url (setting uc.weight 1) heap in
              (
                (
                  url,
                  e,
                  elim at_first [
                    | inl p ↦ inl (p ∙ ap some first)
                    | inr (p, le) ↦ inr (p, omega arith)
                  ],
                ),
                pointers cfgs heap' ids (e' ∙ ap some same),
              )
        ]
  ]

  record Weighed (heap heap' : Heap) (ids : List ℕ) : Type 0 where
    all : All (Weighs heap'.upstreams) ids
    others : (other : ℕ) → Weighs heap.upstreams other → Weighs heap'.upstreams other

  built :
      (cfgs : List UpstreamConfig) (heap : Heap) (ids : List ℕ)
      → IsHeap heap
      → (build_upstreams_reusing parse cfgs existing heap).1 ≡ some ids
      → Points heap.next cfgs ids
        × Weighed heap (build_upstreams_reusing parse cfgs existing heap).0 ids
  unfolding build_upstreams_reusing
  built [] heap [] v h = (tt, record { all = tt; others = λ other w. w })
  built [] heap (id ∷ ids) v h = absurd (cc)
  built (uc ∷ cfgs) heap [] v h = elim (Option-cases (parse uc.url)) [
    | inl e ↦ absurd (ground arith)
    | inr (url, e) ↦
        let heap' = (place existing url (setting uc.weight 1) heap).0 in
        elim (Option-cases (build_upstreams_reusing parse cfgs existing heap').1) [
          | inl e' ↦ absurd (ground arith)
          | inr (rest, e') ↦ absurd (ground arith)
        ]
  ]
  built (uc ∷ cfgs) heap (id ∷ ids) v h = elim (Option-cases (parse uc.url)) [
    | inl e ↦ absurd (ground arith)
    | inr (url, e) ↦
        let heap' = (place existing url (setting uc.weight 1) heap).0 in
        let heap'' = (build_upstreams_reusing parse cfgs existing heap').0 in
        let done : ((place existing url (setting uc.weight 1) heap).1 ≡ id)
            × ((build_upstreams_reusing parse cfgs existing heap').1 ≡ some ids) =
          elim (Option-cases (build_upstreams_reusing parse cfgs existing heap').1) [
            | inl e' ↦ absurd (ground arith)
            | inr (rest, e') ↦ (ground arith, ground arith)
          ] in
        let one = place-Placed existing url (setting uc.weight 1) heap (setting_pos uc.weight) v in
        let (points, more) = built cfgs heap' ids one.valid done.1 in
        let later = (place-Extends existing url (setting uc.weight 1) heap).later in
        (
          (
            (
              url,
              e,
              subst
                  (λ i.
                    (by_url existing url ≡ some i)
                    ⊎ ((by_url existing url ≡ none) × (heap.next ≤ i)))
                  done.0 (place-pointer url (setting uc.weight 1) heap),
            ),
            Points-mono heap.next heap'.next cfgs ids later points,
          ),
          rw (build_upstreams_reusing, e)
              (record {
                all = (more.others id (subst (Weighs heap'.upstreams) done.0 one.weighs), more.all);
                others = λ other w. more.others other (one.others other w);
              }),
        )
  ]

  -- When every URL parses, the pool has one pointer for each entry in their order: to the last
  -- existing upstream with the entry's URL where there is one, and else to a new upstream; and
  -- each has a positive weight then, also where the entry gives none. The ids in the heap are
  -- below its next one.
  pub build_upstreams_reusing-Points :
      (cfgs : List UpstreamConfig) (heap : Heap) (ids : List ℕ)
      → IsHeap heap
      → (build_upstreams_reusing parse cfgs existing heap).1 ≡ some ids
      → Points heap.next cfgs ids
        × All (Weighs (build_upstreams_reusing parse cfgs existing heap).0.upstreams) ids
  build_upstreams_reusing-Points cfgs heap ids v h =
      let (points, more) = built cfgs heap ids v h in (points, more.all)
