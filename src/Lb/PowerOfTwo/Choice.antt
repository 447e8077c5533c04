-- ===== src/Lb/PowerOfTwo/Choice.antt =====
-- internal/lb/p2c.go: two distinct samples, and the better of them.
use l7rp.Base.{
  ℕ, ◌-◌, ◌≤◌, ◌<◌, ◌≡◌, refl, ap, ◌≢◌, inl, inr, ◌⊎◌, List, [], ◌∷◌, Option, none, some, arith,
  leb, if◌then◌else◌, Bool-cases, get_elem?, length, sym,
}
use l7rp.Lb.Upstream.{Upstream}
use l7rp.Lb.Selector.{IsIn, IsChooser, Chooser}
use l7rp.Lb.Elements.{get_elem?-IsIn, get_elem?_total}
use l7rp.Lb.LeastConnections.Minimum.{IsInRange}
use l7rp.Lb.PowerOfTwo.{score, distinct_from, better, choose_p2c}

-- Every ordered pair of distinct indices below `n` is sampled by exactly one pair of draws, and
-- every pair of draws samples such a pair. So uniform draws sample pairs uniformly.
pub distinct_from-pairs :
    (n i : ℕ)
    → i < n
    → ((j : ℕ) → j < n - 1 → (distinct_from i j < n) × (distinct_from i j ≢ i))
      × ((k : ℕ)
          → k < n
          → k ≢ i
          → (j : ℕ) × (j < n - 1)
            × (distinct_from i j ≡ k)
            × ((j' : ℕ) → distinct_from i j' ≡ k → j' ≡ j))
unfolding distinct_from
distinct_from-pairs n i h = (
  λ j p. (ground arith, ground arith),
  λ k p q. (if leb k i then k else k - 1, ground arith, ground arith, λ j' e. ground arith),
)

better_sound :
    (a b : Option Upstream) (u : Upstream)
    → better a b ≡ some u
    → ((a ≡ some u) × ((v : Upstream) × (b ≡ some v) × (score u ≤ score v)))
      ⊎ ((b ≡ some u) × ((v : Upstream) × (a ≡ some v) × (score u ≤ score v)))
better_sound none b u h = cc
better_sound (some a) none u h = cc
better_sound (some a) (some b) u h = elim (Bool-cases (leb (score a) (score b))) [
  | inl e ↦
      let same : a ≡ u = ground arith in inl (ap some same, (b, refl, rw (← same) (ground arith)))
  | inr e ↦
      let same : b ≡ u = ground arith in inr (ap some same, (a, refl, rw (← same) (ground arith)))
]

-- With two eligible upstreams or more the choice is one of two distinct ones, at indices in range,
-- and its score is at most that of the other. (The generator yields
-- numbers in the range that it is asked for.)
pub choose_p2c-better :
    (draw draw' : ℕ → ℕ) (eligible : List Upstream) (u : Upstream)
    → IsInRange draw
    → IsInRange draw'
    → 1 < length eligible
    → choose_p2c draw draw' eligible ≡ some u
    → (i : ℕ) × (j : ℕ) × (i ≢ j)
      × (get_elem? eligible i ≡ some u)
      × ((v : Upstream) × (get_elem? eligible j ≡ some v) × (score u ≤ score v))
unfolding choose_p2c
choose_p2c-better draw draw' [] u r r' n h = absurd (omega arith)
choose_p2c-better draw draw' (x ∷ []) u r r' n h = absurd (omega arith)
choose_p2c-better draw draw' (x ∷ y ∷ rest) u r r' n h =
    let xs = x ∷ y ∷ rest in
    let i = draw (length xs) in
    let j = draw' (length xs - 1) in
    let (_, apart) =
      (distinct_from-pairs (length xs) i (r (length xs) (omega arith))).0 j
        (r' (length xs - 1) (omega arith)) in
    elim (better_sound (get_elem? xs i) (get_elem? xs (distinct_from i j)) u h) [
      | inl (here, other) ↦ (i, distinct_from i j, λ e. apart (sym e), here, other)
      | inr (here, other) ↦ (distinct_from i j, i, apart, here, other)
    ]

-- What the generator yields for the two samples; IntN stays in its range.
pub record Draws : Type 0 where
  pub first : ℕ → ℕ
  pub second : ℕ → ℕ
  pub first_in_range : IsInRange first
  pub second_in_range : IsInRange second

unfoldable pub p2c : Chooser Draws
p2c d eligible = (d, choose_p2c d.first d.second eligible)

better_total : (a b : Option Upstream) → a ≢ none → b ≢ none → better a b ≢ none
better_total none b h k = absurd (h refl)
better_total (some a) none h k = absurd (k refl)
better_total (some a) (some b) h k = ground arith

p2c-from : (d : Draws) (xs : List Upstream) (u : Upstream) → (p2c d xs).1 ≡ some u → IsIn u xs
unfolding p2c
p2c-from d [] u h = unfold choose_p2c in cc h
p2c-from d (x ∷ []) u h = unfold choose_p2c in inl (ground arith)
p2c-from d (x ∷ y ∷ rest) u h =
    let (i, j, apart, at, other) =
      choose_p2c-better d.first d.second (x ∷ y ∷ rest) u d.first_in_range d.second_in_range
        (omega arith) h in
    get_elem?-IsIn (x ∷ y ∷ rest) i u at

p2c-finds : (d : Draws) (xs : List Upstream) → xs ≢ [] → (p2c d xs).1 ≢ none
unfolding p2c choose_p2c
p2c-finds d [] n = absurd (n refl)
p2c-finds d (x ∷ []) n = λ e. cc
p2c-finds d (x ∷ y ∷ rest) n =
    let xs = x ∷ y ∷ rest in
    let i = d.first (length xs) in
    let j = d.second (length xs - 1) in
    let i_lt : i < length xs = d.first_in_range (length xs) (omega arith) in
    let (j_lt, _) =
      (distinct_from-pairs (length xs) i i_lt).0 j
        (d.second_in_range (length xs - 1) (omega arith)) in
    better_total (get_elem? xs i) (get_elem? xs (distinct_from i j)) (get_elem?_total xs i i_lt)
      (get_elem?_total xs (distinct_from i j) j_lt)

-- Power-of-two-choices keeps the contract of a selector.
pub p2c-IsChooser : IsChooser p2c
unfolding p2c choose_p2c
p2c-IsChooser = record { from_eligible = p2c-from; finds = p2c-finds; fails = λ d. refl }
