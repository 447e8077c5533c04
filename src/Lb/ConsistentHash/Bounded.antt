-- ===== src/Lb/ConsistentHash/Bounded.antt =====
-- internal/lb/consistenthash.go: which upstream the walk along the ring ends at, and how loaded it is.
use l7rp.Base.{
  ℕ, ◌+◌, ◌≤◌, ◌<◌, ◌≡◌, refl, sym, ◌∙◌, subst, inl, inr, ◌⊎◌, true, false, List, [], ◌∷◌, Option,
  none, some, arith, ◌==◌, ==_iff, ltb, leb, if◌then◌else◌, Bool-cases, Option-cases, All, length,
  Float64,
}
use l7rp.Lb.Upstream.{Upstream}
use l7rp.Lb.Selector.{contains, IsIn}
use l7rp.Lb.ConsistentHash.{
  RingEntry, clockwise, capacity, find, walk, lowest, max_int64, choose_consistent_hash,
}

-- The walk without its memory of what it has seen: the first entry whose upstream is eligible and
-- has room.
abbrev pub first_fit : List Upstream → ℕ → List RingEntry → Option Upstream
first_fit eligible cap [] = none
first_fit eligible cap (e ∷ ring) = elim (find eligible e.upstream) [
  | none ↦ first_fit eligible cap ring
  | some u ↦ if leb (u.in_flight + 1) cap then some u else first_fit eligible cap ring
]

module _ (eligible : List Upstream) (cap : ℕ) where
  abbrev IsOver : ℕ → Type 0
  IsOver id = (u : Upstream) → find eligible id ≡ some u → leb (u.in_flight + 1) cap ≡ false

  IsOver-visited :
      (visited : List ℕ) (id : ℕ) → All IsOver visited → contains visited id ≡ true → IsOver id
  unfolding contains
  IsOver-visited [] id h c = cc
  IsOver-visited (x ∷ visited) id h c = elim (Bool-cases (x == id)) [
    | inl e ↦ let same : x ≡ id = (==_iff x id).0 e in rw (← same) (h.0)
    | inr e ↦ IsOver-visited visited id h.1 (rw e at c)
  ]

  walk-first_fit :
      (visited : List ℕ) (ring : List RingEntry)
      → All IsOver visited
      → walk eligible cap visited ring ≡ first_fit eligible cap ring
  unfolding walk
  walk-first_fit visited [] h = refl
  walk-first_fit visited (e ∷ ring) h = elim (Option-cases (find eligible e.upstream)) [
    | inl f ↦ rw (walk, first_fit, f) (walk-first_fit visited ring h)
    | inr (u, f) ↦ elim (Bool-cases (contains visited e.upstream)) [
      | inl c ↦
          rw (walk, first_fit, f, c, IsOver-visited visited e.upstream h c u f)
            (walk-first_fit visited ring h)
      | inr c ↦ elim (Bool-cases (leb (u.in_flight + 1) cap)) [
        | inl l ↦ rw (walk, first_fit, f, c, l)
        | inr l ↦
            rw (walk, first_fit, f, c, l)
              (walk-first_fit (e.upstream ∷ visited) ring (λ v g. over u v l (sym f ∙ g), h))
      ]
    ]
  ]
    where
      over :
          (u v : Upstream)
          → leb (u.in_flight + 1) cap ≡ false
          → some u ≡ some v
          → leb (v.in_flight + 1) cap ≡ false
      over u v l e = let same : u ≡ v = cc in rw (← same) l

  find-IsIn : (xs : List Upstream) (id : ℕ) (u : Upstream) → find xs id ≡ some u → IsIn u xs
  unfolding find
  find-IsIn [] id u h = cc
  find-IsIn (x ∷ xs) id u h = elim (Bool-cases (x.id == id)) [
    | inl e ↦ inl (let same : some x ≡ some u = rw (find, e) at h in cc)
    | inr e ↦ inr (find-IsIn xs id u (rw (find, e) at h))
  ]

  first_fit-room :
      (ring : List RingEntry) (u : Upstream)
      → first_fit eligible cap ring ≡ some u
      → IsIn u eligible × (u.in_flight < cap)
  first_fit-room [] u h = cc
  first_fit-room (e ∷ ring) u h = elim (Option-cases (find eligible e.upstream)) [
    | inl f ↦ first_fit-room ring u (rw (first_fit, f) at h)
    | inr (x, f) ↦ elim (Bool-cases (leb (x.in_flight + 1) cap)) [
      | inl l ↦
          let same : x ≡ u = let e' : some x ≡ some u = rw (first_fit, f, l) at h in cc in
          rw (← same) (find-IsIn eligible e.upstream x f, ground arith)
      | inr l ↦ first_fit-room ring u (rw (first_fit, f, l) at h)
    ]
  ]

lowest-cases :
    (least : ℕ) (best : Option Upstream) (xs : List Upstream)
    → ((lowest least best xs ≡ best) × All (λ v. least ≤ v.in_flight) xs)
      ⊎ ((u : Upstream) × (lowest least best xs ≡ some u)
          × IsIn u xs
          × (u.in_flight < least)
          × All (λ v. u.in_flight ≤ v.in_flight) xs)
unfolding lowest
lowest-cases least best [] = inl (refl, tt)
lowest-cases least best (x ∷ xs) = elim (Bool-cases (ltb x.in_flight least)) [
  | inl l ↦ elim (lowest-cases x.in_flight (some x) xs) [
    | inl (e, all) ↦ inr (x, rw (lowest, l) e, inl refl, ground arith, (omega arith, all))
    | inr (u, e, i, lt, all) ↦ inr (u, rw (lowest, l) e, inr i, ground arith, (omega arith, all))
  ]
  | inr l ↦ elim (lowest-cases least best xs) [
    | inl (e, all) ↦ inl (rw (lowest, l) e, (ground arith, all))
    | inr (u, e, i, lt, all) ↦ inr (u, rw (lowest, l) e, inr i, lt, (ground arith, all))
  ]
]

carried :
    (xs : List Upstream) (v u : Upstream)
    → v ≡ u
    → IsIn v xs
    → All (λ x. v.in_flight ≤ x.in_flight) xs
    → IsIn u xs × All (λ x. u.in_flight ≤ x.in_flight) xs
carried xs v u e =
    subst
      (λ x.
        IsIn x xs
        → All (λ y. x.in_flight ≤ y.in_flight) xs
        → IsIn u xs × All (λ y. u.in_flight ≤ y.in_flight) xs)
      (sym e) (λ here all. (here, all))

-- With two eligible upstreams or more: the choice is eligible; it is the first on the way clockwise
-- from the key's position that is eligible and has fewer requests in flight than the capacity allows,
-- or, where the walk meets none, no eligible upstream has fewer requests in flight.
pub choose_consistent_hash-bounded :
    (fl : Float64) (epsilon : fl.F) (ring : List RingEntry) (pos : ℕ) (eligible : List Upstream)
    (u : Upstream)
    → 1 < length eligible
    → choose_consistent_hash fl epsilon ring pos eligible ≡ some u
    → let cap = capacity fl epsilon eligible in
      let walked = first_fit eligible cap (clockwise pos ring) in
      IsIn u eligible
      × (((walked ≡ some u) × (u.in_flight < cap))
          ⊎ ((walked ≡ none) × All (λ v. u.in_flight ≤ v.in_flight) eligible))
unfolding choose_consistent_hash
choose_consistent_hash-bounded fl epsilon ring pos [] u n h = absurd (omega arith)
choose_consistent_hash-bounded fl epsilon ring pos (x ∷ []) u n h = absurd (omega arith)
choose_consistent_hash-bounded fl epsilon ring pos (x ∷ y ∷ rest) u n h =
    let eligible = x ∷ y ∷ rest in
    let cap = capacity fl epsilon eligible in
    let way = clockwise pos ring in
    let same = walk-first_fit eligible cap [] way tt in
    elim (Option-cases (walk eligible cap [] way)) [
      | inr (v, w) ↦
          let found : some v ≡ some u = rw (choose_consistent_hash, w) at h in
          let walked : first_fit eligible cap way ≡ some u = sym same ∙ w ∙ found in
          let (here, room) = first_fit-room eligible cap way u walked in (here, inl (walked, room))
      | inl w ↦
          let found : lowest max_int64 none eligible ≡ some u =
            rw (choose_consistent_hash, w) at h in
          elim (lowest-cases max_int64 none eligible) [
            | inl (nothing, all) ↦ absurd (let clash : none ≡ some u = sym nothing ∙ found in cc)
            | inr (v, e, here, lt, all) ↦
                let is_u : v ≡ u = let e' : some v ≡ some u = sym e ∙ found in cc in
                let (here', all') = carried eligible v u is_u here all in
                (here', inr (sym same ∙ w, all'))
          ]
    ]
