-- ===== src/Lb/RoundRobin.antt =====
-- internal/lb/roundrobin.go.
pub mod Rotation
use l7rp.Base.{ℕ, ◌+◌, ◌%◌, List, [], ◌∷◌, Option, none, some, get_elem?, length}
use l7rp.Lb.Upstream.{Upstream, uint64}

-- The state is the counter, an atomic.Uint64; `counter.Add(1)` returns the new value.
unfoldable pub choose_round_robin : ℕ → List Upstream → ℕ × Option Upstream
choose_round_robin counter [] = (counter, none)
choose_round_robin counter (u ∷ []) = (counter, some u)
choose_round_robin counter (u ∷ v ∷ rest) =
    let eligible = u ∷ v ∷ rest in
    let counter' = uint64 (counter + 1) in
    (counter', get_elem? eligible (counter' % length eligible))
