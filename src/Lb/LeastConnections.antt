-- ===== src/Lb/LeastConnections.antt =====
-- internal/lb/leastconnections.go. `draw n` is the number that `rng.IntN(n)` yields.
pub mod Minimum
use l7rp.Base.{
  ℕ, zero, suc, ◌+◌, ◌-◌, ◌^◌, Bool, List, [], ◌∷◌, Option, none, some, ◌==◌, ltb, if◌then◌else◌,
  keep, count_if, get_elem?,
}
use l7rp.Lb.Upstream.{Upstream}

abbrev pub max_int64 : ℕ
max_int64 = 2 ^ 63 - 1

-- The first loop.
unfoldable pub min_in_flight : ℕ → List Upstream → ℕ
min_in_flight least [] = least
min_in_flight least (u ∷ eligible) =
    min_in_flight (if ltb u.in_flight least then u.in_flight else least) eligible

-- The last loop: the `index`-th of those that hold the minimum.
unfoldable pub tie_at : (least index : ℕ) → List Upstream → Option Upstream
tie_at least index [] = none
tie_at least index (u ∷ eligible) =
    if u.in_flight == least
    then elim index [ zero ↦ some u | suc i ↦ tie_at least i eligible ]
    else tie_at least index eligible

unfoldable pub choose_least_connections : (ℕ → ℕ) → List Upstream → Option Upstream
unfolding min_in_flight tie_at
choose_least_connections draw [] = none
choose_least_connections draw (u ∷ []) = some u
choose_least_connections draw (u ∷ v ∷ rest) =
    let eligible = u ∷ v ∷ rest in
    let least = min_in_flight max_int64 eligible in
    let ties = count_if (λ x. x.in_flight == least) eligible in
    let index : ℕ = if ties == 1 then 0 else draw ties in
    elim (tie_at least index eligible) [ some x ↦ some x | none ↦ some u ]
