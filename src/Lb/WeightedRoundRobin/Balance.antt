-- ===== src/Lb/WeightedRoundRobin/Balance.antt =====
-- internal/lb/weighted.go: what a pick adds to the current weights it takes away again.
use l7rp.Base.{
  ℕ, zero, suc, ◌+◌, ◌-◌, ◌%◌, ◌^◌, ◌<◌, ◌≡◌, refl, ◌∙◌, ap, inl, inr, ◌⊎◌, List, [], ◌∷◌, Option,
  none, some, arith, ◌==◌, Bool-cases, Option-cases, length,
}
use l7rp.Lb.Upstream.{Upstream}
use l7rp.Lb.WeightedRoundRobin.{
  add_int64, sub_int64, lt_int64, WeightedRoundRobin, Round, index_of, weight_at, update_at,
  take_best, weigh, weigh_all, choose_weighted,
}

abbrev pub total : List ℕ → ℕ
total [] = 0
total (x ∷ cw) = x + total cw

total-update_add :
    (w : ℕ) (cw : List ℕ) (i : ℕ)
    → i < length cw
    → total (update_at (λ c. add_int64 c w) cw i) % 2 ^ 64 ≡ (total cw + w) % 2 ^ 64
unfolding update_at
total-update_add w [] i h = absurd (omega arith)
total-update_add w (x ∷ cw) zero h = omega arith
total-update_add w (x ∷ cw) (suc i) h =
    let rest = total-update_add w cw i (omega arith) in omega arith

total-update_sub :
    (w : ℕ) (cw : List ℕ) (i : ℕ)
    → i < length cw
    → total (update_at (λ c. sub_int64 c w) cw i) % 2 ^ 64
      ≡ (total cw + (2 ^ 64 - w % 2 ^ 64)) % 2 ^ 64
unfolding update_at
total-update_sub w [] i h = absurd (omega arith)
total-update_sub w (x ∷ cw) zero h = omega arith
total-update_sub w (x ∷ cw) (suc i) h =
    let rest = total-update_sub w cw i (omega arith) in omega arith

pub length-update_at : (f : ℕ → ℕ) (cw : List ℕ) (i : ℕ) → length (update_at f cw i) ≡ length cw
unfolding update_at
length-update_at f [] i = refl
length-update_at f (x ∷ cw) zero = refl
length-update_at f (x ∷ cw) (suc i) = ap suc (length-update_at f cw i)

pub index_of-lt : (pool : List ℕ) (id i : ℕ) → index_of pool id ≡ some i → i < length pool
unfolding index_of
index_of-lt [] id i h = cc
index_of-lt (p ∷ pool) id i h = elim (Option-cases (index_of pool id)) [
  | inl e ↦ ground arith
  | inr (k, e) ↦ ground (arith, index_of-lt pool id k e)
]

-- During the loop the weights have grown by `sum_weight`, and `best` has a slot.
record IsBalanced (size : ℕ) (start : ℕ) (r : Round) : Type 0 where
  slots : length r.cw ≡ size
  grown : total r.cw % 2 ^ 64 ≡ (start + r.sum_weight) % 2 ^ 64
  chosen :
      ((r.best ≡ none) × (r.sum_weight ≡ 0))
      ⊎ ((b : Upstream) × (k : ℕ) × (r.best ≡ some (b, k)) × (k < size))

take_best-some :
    (cw : List ℕ) (u : Upstream) (i size : ℕ) (best : Option (Upstream × ℕ))
    → i < size
    → (best ≡ none) ⊎ ((b : Upstream) × (k : ℕ) × (best ≡ some (b, k)) × (k < size))
    → (b : Upstream) × (k : ℕ) × (take_best cw u i best ≡ some (b, k)) × (k < size)
unfolding take_best
take_best-some cw u i size none h c = (u, i, refl, h)
take_best-some cw u i size (some (b, k)) h (inl e) = absurd (cc)
take_best-some cw u i size (some (b, k)) h (inr (b', k', e, lt)) =
    elim (Bool-cases (lt_int64 (weight_at cw k) (weight_at cw i))) [
      | inl t ↦ (u, i, rw t, h)
      | inr t ↦ (b, k, rw t, ground arith)
    ]

weigh-IsBalanced :
    (pool : List ℕ) (start : ℕ) (r : Round) (u : Upstream)
    → IsBalanced (length pool) start r
    → IsBalanced (length pool) start (weigh pool r u)
unfolding weigh
weigh-IsBalanced pool start r u v = elim (Bool-cases (u.weight == 0)) [
  | inl t ↦ rw t v
  | inr t ↦ elim (Option-cases (index_of pool u.id)) [
    | inl e ↦ rw (t, e) v
    | inr (i, e) ↦ rw (t, e) (added i (index_of-lt pool u.id i e))
  ]
]
  where
    added :
        (i : ℕ)
        → i < length pool
        → IsBalanced (length pool) start (record {
          cw = update_at (λ c. add_int64 c u.weight) r.cw i;
          sum_weight = add_int64 r.sum_weight u.weight;
          best = take_best (update_at (λ c. add_int64 c u.weight) r.cw i) u i r.best;
        })
    added i lt = record {
      slots = length-update_at (λ c. add_int64 c u.weight) r.cw i ∙ v.slots;
      grown =
          let more = total-update_add u.weight r.cw i (rw (v.slots) lt) in
          let before = v.grown in omega arith;
      chosen = inr (
          take_best-some (update_at (λ c. add_int64 c u.weight) r.cw i) u i (length pool) r.best lt
            (elim v.chosen [ inl (e, z) ↦ inl e | inr c ↦ inr c ]));
    }

weigh_all-IsBalanced :
    (pool : List ℕ) (start : ℕ) (r : Round) (xs : List Upstream)
    → IsBalanced (length pool) start r
    → IsBalanced (length pool) start (weigh_all pool r xs)
unfolding weigh_all
weigh_all-IsBalanced pool start r [] v = v
weigh_all-IsBalanced pool start r (u ∷ xs) v =
    weigh_all-IsBalanced pool start (weigh pool r u) xs (weigh-IsBalanced pool start r u v)

-- A pick leaves the sum of the current weights as it was, as int64 reckons it, whatever the weights
-- are, and one slot for each member of the pool: no upstream gains what the others do not lose.
-- (Before it, too, there is one slot for each.)
pub choose_weighted-total :
    (w : WeightedRoundRobin) (eligible : List Upstream)
    → length w.cw ≡ length w.pool
    → (total (choose_weighted w eligible).0.cw % 2 ^ 64 ≡ total w.cw % 2 ^ 64)
      × (length (choose_weighted w eligible).0.cw ≡ length w.pool)
unfolding choose_weighted
choose_weighted-total w [] h = (refl, h)
choose_weighted-total w (u ∷ []) h = (refl, h)
choose_weighted-total w (u ∷ v ∷ rest) h = finish v'.chosen
  where
    r : Round
    r = weigh_all w.pool (record { cw = w.cw; sum_weight = 0; best = none }) (u ∷ v ∷ rest)

    v' : IsBalanced (length w.pool) (total w.cw) r
    v' =
        weigh_all-IsBalanced w.pool (total w.cw) (record { cw = w.cw; sum_weight = 0; best = none })
          (u ∷ v ∷ rest) (record { slots = h; grown = omega arith; chosen = inl (refl, refl) })

    finish :
        ((r.best ≡ none) × (r.sum_weight ≡ 0))
          ⊎ ((b : Upstream) × (k : ℕ) × (r.best ≡ some (b, k)) × (k < length w.pool))
        → (total (choose_weighted w (u ∷ v ∷ rest)).0.cw % 2 ^ 64 ≡ total w.cw % 2 ^ 64)
          × (length (choose_weighted w (u ∷ v ∷ rest)).0.cw ≡ length w.pool)
    finish (inl (e, z)) = rw (e, choose_weighted) (let grown = v'.grown in omega arith, v'.slots)
    finish (inr (b, k, e, lt)) =
        rw (e, choose_weighted)
          (
            let less = total-update_sub r.sum_weight r.cw k (rw (v'.slots) lt) in
                let grown = v'.grown in omega arith,
            length-update_at (λ c. sub_int64 c r.sum_weight) r.cw k ∙ v'.slots,
          )
