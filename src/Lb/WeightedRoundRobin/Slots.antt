-- ===== src/Lb/WeightedRoundRobin/Slots.antt =====
-- internal/lb/weighted.go: the slots of the current weights, and the order of int64.
use l7rp.Base.{
  ℕ, zero, suc, ◌<◌, ◌≡◌, ◌≢◌, refl, ap, inl, inr, true, false, List, [], ◌∷◌, some, arith,
  Option-cases, length, All,
}
use l7rp.Lb.Upstream.{Upstream}
use l7rp.Lb.WeightedRoundRobin.{lt_int64, index_of, weight_at, update_at}

-- No two of them are the same.
abbrev pub AreDistinct : List Upstream → Type 0
AreDistinct [] = Unit
AreDistinct (u ∷ us) = All (λ v. v.id ≢ u.id) us × AreDistinct us

pub weight_at-update_at :
    (f : ℕ → ℕ) (cw : List ℕ) (i : ℕ)
    → i < length cw
    → weight_at (update_at f cw i) i ≡ f (weight_at cw i)
unfolding weight_at update_at
weight_at-update_at f [] i h = absurd (omega arith)
weight_at-update_at f (x ∷ cw) zero h = refl
weight_at-update_at f (x ∷ cw) (suc i) h = weight_at-update_at f cw i (omega arith)

pub weight_at-update_other :
    (f : ℕ → ℕ) (cw : List ℕ) (i j : ℕ) → j ≢ i → weight_at (update_at f cw i) j ≡ weight_at cw j
unfolding weight_at update_at
weight_at-update_other f [] i j h = refl
weight_at-update_other f (x ∷ cw) zero zero h = absurd (h refl)
weight_at-update_other f (x ∷ cw) zero (suc j) h = refl
weight_at-update_other f (x ∷ cw) (suc i) zero h = refl
weight_at-update_other f (x ∷ cw) (suc i) (suc j) h =
    weight_at-update_other f cw i j (λ e. h (ap suc e))

pub index_of-inj :
    (pool : List ℕ) (p q i : ℕ) → index_of pool p ≡ some i → index_of pool q ≡ some i → p ≡ q
unfolding index_of
index_of-inj [] p q i h k = absurd (cc)
index_of-inj (x ∷ pool) p q zero h k = elim (Option-cases (index_of pool p)) [
  | inl e ↦ elim (Option-cases (index_of pool q)) [
    | inl f ↦ ground arith
    | inr (b, f) ↦ ground arith
  ]
  | inr (a, e) ↦ elim (Option-cases (index_of pool q)) [
    | inl f ↦ ground arith
    | inr (b, f) ↦ ground arith
  ]
]
index_of-inj (x ∷ pool) p q (suc i) h k = elim (Option-cases (index_of pool p)) [
  | inl e ↦ absurd (ground arith)
  | inr (a, e) ↦ elim (Option-cases (index_of pool q)) [
    | inl f ↦ absurd (ground arith)
    | inr (b, f) ↦ index_of-inj pool p q i (ground arith) (ground arith)
  ]
]

-- The comparison of int64 is a total order.
pub worse : (a b c : ℕ) → lt_int64 a b ≡ true → lt_int64 a c ≡ false → lt_int64 b c ≡ false
worse a b c h k = ground arith

pub not_self : (a : ℕ) → lt_int64 a a ≡ false
not_self a = ground arith
