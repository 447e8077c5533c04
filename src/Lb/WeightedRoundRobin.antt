-- ===== src/Lb/WeightedRoundRobin.antt =====
-- internal/lb/weighted.go: smooth weighted round-robin. `pool` holds the ids of the pool, and `cw`
-- the current weights, parallel to it; they are int64, here by their bits: a number below 2^64, of
-- which those from 2^63 on are negative.
pub mod Balance
pub mod Slots
pub mod Choice
use l7rp.Base.{
  ℕ, zero, suc, ◌+◌, ◌-◌, ◌%◌, ◌^◌, ltb, List, [], ◌∷◌, Bool, Option, none, some, ◌==◌,
  if◌then◌else◌, get_elem?,
}
use l7rp.Lb.Upstream.{Upstream}

-- Addition, subtraction and `<` of int64.
abbrev pub add_int64 : ℕ → ℕ → ℕ
add_int64 x y = (x + y) % 2 ^ 64

abbrev pub sub_int64 : ℕ → ℕ → ℕ
sub_int64 x y = (x + (2 ^ 64 - y % 2 ^ 64)) % 2 ^ 64

abbrev pub lt_int64 : ℕ → ℕ → Bool
lt_int64 x y = ltb ((x + 2 ^ 63) % 2 ^ 64) ((y + 2 ^ 63) % 2 ^ 64)

pub record WeightedRoundRobin : Type 0 where
  pub pool : List ℕ
  pub cw : List ℕ

-- indexOf, `none` for -1.
unfoldable pub index_of : List ℕ → ℕ → Option ℕ
index_of [] id = none
index_of (p ∷ pool) id =
    if p == id then some 0 else elim (index_of pool id) [ some i ↦ some (suc i) | none ↦ none ]

-- `cw[i]` and `cw[i] += d`.
unfoldable pub weight_at : List ℕ → ℕ → ℕ
weight_at [] i = 0
weight_at (x ∷ cw) zero = x
weight_at (x ∷ cw) (suc i) = weight_at cw i

unfoldable pub update_at : (ℕ → ℕ) → List ℕ → ℕ → List ℕ
update_at f [] i = []
update_at f (x ∷ cw) zero = f x ∷ cw
update_at f (x ∷ cw) (suc i) = x ∷ update_at f cw i

-- The variables of the loop: `cw`, `sumWeight`, and `bestUp` with `bestPoolIx`.
pub record Round : Type 0 where
  pub cw : List ℕ
  pub sum_weight : ℕ
  pub best : Option (Upstream × ℕ)

unfoldable pub take_best : List ℕ → Upstream → ℕ → Option (Upstream × ℕ) → Option (Upstream × ℕ)
unfolding weight_at
take_best cw u i none = some (u, i)
take_best cw u i (some (b, k)) =
    if lt_int64 (weight_at cw k) (weight_at cw i) then some (u, i) else some (b, k)

unfoldable pub weigh : List ℕ → Round → Upstream → Round
unfolding update_at take_best index_of
weigh pool r u = if u.weight == 0 then r else elim (index_of pool u.id) [
  | none ↦ r
  | some i ↦
      let cw' = update_at (λ c. add_int64 c u.weight) r.cw i in
      record {
        cw = cw';
        sum_weight = add_int64 r.sum_weight u.weight;
        best = take_best cw' u i r.best;
      }
]

unfoldable pub weigh_all : List ℕ → Round → List Upstream → Round
unfolding weigh
weigh_all pool r [] = r
weigh_all pool r (u ∷ eligible) = weigh_all pool (weigh pool r u) eligible

unfoldable pub choose_weighted :
    WeightedRoundRobin → List Upstream → WeightedRoundRobin × Option Upstream
unfolding weigh_all update_at
choose_weighted w [] = (w, none)
choose_weighted w (u ∷ []) = (w, some u)
choose_weighted w (u ∷ v ∷ rest) =
    let r = weigh_all w.pool (record { cw = w.cw; sum_weight = 0; best = none }) (u ∷ v ∷ rest) in
    elim r.best [
      | none ↦ (record w { cw = r.cw }, none)
      | some (b, k) ↦ (record w { cw = update_at (λ c. sub_int64 c r.sum_weight) r.cw k }, some b)
    ]
