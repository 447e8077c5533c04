-- ===== src/Lb/Examples.antt =====
-- The selectors on a pool of three upstreams, of which the second is marked down.
use l7rp.Base.{
  ℕ, zero, suc, ◌≤◌, ◌<◌, ◌≡◌, refl, ◌≢◌, ◌⊎◌, true, false, ◌↔◌, List, [], ◌∷◌, none, some, arith,
  get_elem?, All, Has, bytes,
}
use l7rp.Lb.Breaker.{new_circuit_breaker}
use l7rp.Lb.Upstream.{Upstream}
use l7rp.Lb.Selector.{contains, IsIn, pick}
use l7rp.Lb.Selector.Laws.{is_selectable, at_instant, pick-selectable}
use l7rp.Lb.RoundRobin.{choose_round_robin}
use l7rp.Lb.RoundRobin.Rotation.{nth_choice, IsDistinct, nth_choice_once, round_robin-IsChooser}
use l7rp.Lb.LeastConnections.{choose_least_connections}
use l7rp.Lb.LeastConnections.Minimum.{IsInRange, IsInt64, choose_least_connections-minimal}
use l7rp.Lb.PowerOfTwo.{score, distinct_from, choose_p2c}
use l7rp.Lb.PowerOfTwo.Choice.{choose_p2c-better}
use l7rp.Base.Ratio.{ratio}
use l7rp.Lb.ConsistentHash.{
  RingEntry, clockwise, search, capacity, find, walk, choose_consistent_hash,
}
use l7rp.Lb.ConsistentHash.Bounded.{first_fit, choose_consistent_hash-bounded}
use l7rp.Lb.WeightedRoundRobin.{WeightedRoundRobin}

abbrev backend : (id load latency : ℕ) → Upstream
backend id load latency = record {
  id = id;
  url = bytes "http://backend";
  weight = suc id;
  eligible = true;
  in_flight = load;
  latency_ewma = latency;
  last_update = 1;
  breaker = new_circuit_breaker;
}

abbrev quick : Upstream
quick = backend 1 4 100

abbrev down : Upstream
down = record (backend 2 0 10) { eligible = false }

abbrev slow : Upstream
slow = backend 3 2 900

abbrev three : List Upstream
three = quick ∷ down ∷ slow ∷ []

abbrev two : List Upstream
two = quick ∷ slow ∷ []

-- A pick that excludes the first upstream can only take the last.
pick-selectable_example :
    ((u : Upstream)
      → (pick choose_round_robin 5 0 three (1 ∷ [])).2 ≡ some u
      → Has (λ v. (is_selectable 5 (1 ∷ []) v ≡ true) × (at_instant 5 v ≡ u)) three)
    × (((pick choose_round_robin 5 0 three (1 ∷ [])).2 ≡ none)
        ↔ All (λ v. is_selectable 5 (1 ∷ []) v ≡ false) three)
pick-selectable_example =
    pick-selectable choose_round_robin 5 0 three (1 ∷ []) round_robin-IsChooser

two-IsDistinct : IsDistinct two
two-IsDistinct zero zero h h' e = refl
two-IsDistinct zero (suc zero) h h' e = cc
two-IsDistinct (suc zero) zero h h' e = cc
two-IsDistinct (suc zero) (suc zero) h h' e = refl
two-IsDistinct (suc (suc i)) j h h' e = absurd (omega arith)
two-IsDistinct zero (suc (suc j)) h h' e = absurd (omega arith)
two-IsDistinct (suc zero) (suc (suc j)) h h' e = absurd (omega arith)

nth_choice_once_example :
    (k : ℕ) × (k < 2)
    × (nth_choice k 6 two ≡ some slow)
    × ((l : ℕ) → l < 2 → nth_choice l 6 two ≡ some slow → l ≡ k)
nth_choice_once_example =
    nth_choice_once 6 two 1 (omega arith) (omega arith) two-IsDistinct (omega arith)

first_draw-IsInRange : IsInRange (λ n. 0)
first_draw-IsInRange n h = h

two-IsInt64 : IsInt64 two
two-IsInt64 = (omega arith, (omega arith, tt))

choose_least_connections-minimal_example : IsIn slow two × All (λ v. 2 ≤ v.in_flight) two
choose_least_connections-minimal_example =
    choose_least_connections-minimal (λ n. 0) two slow first_draw-IsInRange two-IsInt64
      (unfold choose_least_connections in refl)

-- The quick upstream wins: 100 * 5 is below 900 * 3.
choose_p2c-better_example :
    (i : ℕ) × (j : ℕ) × (i ≢ j)
    × (get_elem? two i ≡ some quick)
    × ((v : Upstream) × (get_elem? two j ≡ some v) × (score quick ≤ score v))
choose_p2c-better_example =
    choose_p2c-better (λ n. 0) (λ n. 0) two quick first_draw-IsInRange first_draw-IsInRange
      (omega arith) (unfold choose_p2c distinct_from score in refl)

abbrev weights : WeightedRoundRobin
weights = record { pool = 1 ∷ 3 ∷ []; cw = 2 ∷ 18446744073709551614 ∷ [] }

-- A ring of three positions. The quick upstream, next on the way from 15, is over the capacity of 3.
abbrev ring : List RingEntry
ring =
    record { pos = 10; upstream = 3 }
    ∷ record { pos = 20; upstream = 1 }
    ∷ record { pos = 30; upstream = 3 }
    ∷ []

choose_consistent_hash-bounded_example :
    let walked = first_fit two (capacity ratio (0, 1) two) (clockwise 15 ring) in
    IsIn slow two
    × (((walked ≡ some slow) × (2 < capacity ratio (0, 1) two))
        ⊎ ((walked ≡ none) × All (λ v. 2 ≤ v.in_flight) two))
choose_consistent_hash-bounded_example =
    choose_consistent_hash-bounded ratio (0, 1) ring 15 two slow (omega arith)
      (unfold choose_consistent_hash clockwise search capacity find walk contains in refl)
