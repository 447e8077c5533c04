-- ===== src/Lb/WeightedRoundRobin/Choice.antt =====
-- internal/lb/weighted.go: a pick takes the upstream whose current weight has grown to the most.
use l7rp.Base.{ℕ, ◌<◌, ◌≡◌, ◌≢◌, false, List, [], ◌∷◌, Option, none, some, length, All}
use l7rp.Lb.Upstream.{Upstream}
use l7rp.Lb.WeightedRoundRobin.{add_int64, lt_int64, WeightedRoundRobin, Round, index_of, weight_at}

module _ (pool : List ℕ) (start : List ℕ) where
  -- What the weight of an upstream with its slot grows to.
  abbrev pub grown : Upstream → ℕ → ℕ
  grown u i = add_int64 (weight_at start i) u.weight

  -- The upstream takes part, with its slot.
  abbrev pub Runs : Upstream → ℕ → Type 0
  Runs u i = (0 < u.weight) × (index_of pool u.id ≡ some i)

  -- No upstream of those that take part has grown above `w`.
  abbrev pub Beats : ℕ → Upstream → Type 0
  Beats w u = (i : ℕ) → Runs u i → lt_int64 w (grown u i) ≡ false

  -- Behind a part of the loop: `past` is what it has seen.
  abbrev Leads : List Upstream → List ℕ → Option (Upstream × ℕ) → Type 0
  Leads past cw none = All (λ u. (i : ℕ) → Runs u i → ⊥) past
  Leads past cw (some (b, k)) =
      Runs b k × (weight_at cw k ≡ grown b k) × All (Beats (grown b k)) past

  record IsAhead (past left : List Upstream) (r : Round) : Type 0 where
    slots : length r.cw ≡ length pool
    untouched : All (λ u. (i : ℕ) → Runs u i → weight_at r.cw i ≡ weight_at start i) left
    leads : Leads past r.cw r.best
    apart : (b : Upstream) (k : ℕ) → r.best ≡ some (b, k) → All (λ u. u.id ≢ b.id) left

  -- What the loop has seen in the end.
  abbrev behind : List Upstream → List Upstream → List Upstream
  behind past [] = past
  behind past (u ∷ left) = behind (u ∷ past) left

-- What a pick comes to among two upstreams or more.
abbrev pub IsBest : WeightedRoundRobin → List Upstream → Option Upstream → Type 0
IsBest w eligible none = All (λ u. (i : ℕ) → Runs w.pool w.cw u i → ⊥) eligible
IsBest w eligible (some b) =
    (k : ℕ) × Runs w.pool w.cw b k × All (Beats w.pool w.cw (grown w.pool w.cw b k)) eligible
