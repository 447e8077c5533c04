-- ===== src/Lb/PowerOfTwo.antt =====
-- internal/lb/p2c.go. `draw n` and `draw' n` are what `rng.IntN(n)` yields for the two samples. The
-- score is a uint64 and wraps.
pub mod Choice
use l7rp.Base.{
  ℕ, suc, ◌+◌, ◌-◌, ◌*◌, List, [], ◌∷◌, Option, none, some, leb, if◌then◌else◌, get_elem?, length,
  Float64,
}
use l7rp.Lb.Upstream.{Upstream, uint64, latency_nanos, record_latency}

unfoldable pub score : Upstream → ℕ
score u = uint64 (latency_nanos u * uint64 (1 + u.in_flight))

-- The second index, shifted to be distinct from the first.
unfoldable pub distinct_from : ℕ → ℕ → ℕ
distinct_from i j = if leb i j then j + 1 else j

abbrev better : Option Upstream → Option Upstream → Option Upstream
better (some a) (some b) = if leb (score a) (score b) then some a else some b
better _ _ = none

unfoldable pub choose_p2c : (draw draw' : ℕ → ℕ) → List Upstream → Option Upstream
unfolding distinct_from
choose_p2c draw draw' [] = none
choose_p2c draw draw' (u ∷ []) = some u
choose_p2c draw draw' (u ∷ v ∷ rest) =
    let eligible = u ∷ v ∷ rest in
    let i = draw (length eligible) in
    let j = distinct_from i (draw' (length eligible - 1)) in
    better (get_elem? eligible i) (get_elem? eligible j)

-- RecordOutcome: `now` is the reading of the injected clock.
unfoldable pub record_outcome : Float64 → (now half_life : ℕ) → Upstream → ℕ → Upstream
record_outcome fl now half_life u latency = record_latency fl now latency half_life u
