-- ===== src/Lb/RoundRobin/Rotation.antt =====
-- internal/lb/roundrobin.go: every eligible upstream has its turn.
use l7rp.Base.{
  ℕ, zero, suc, ◌+◌, ◌-◌, ◌%◌, ◌≤◌, ◌<◌, ◌^◌, ◌≡◌, refl, sym, ◌≢◌, ◌⊎◌, inr, false, leb, le→leb,
  if◌then◌else◌, ap, ◌∙◌, List, [], ◌∷◌, Option, none, some, arith, inl, get_elem?, length,
}
use native.Mathlib.Nat.{mod-lt, mod-eq_of_lt, mod-add-mod, mod-eq-sub-mod}
use native.Mathlib.Decide.{dec_lt, dec_le}
use l7rp.Lb.Upstream.{Upstream, uint64}
use l7rp.Lb.Selector.{IsIn, IsChooser}
use l7rp.Lb.Elements.{get_elem?-IsIn, get_elem?_total}
use l7rp.Lb.RoundRobin.{choose_round_robin}

round_robin-from :
    (counter : ℕ) (eligible : List Upstream) (u : Upstream)
    → (choose_round_robin counter eligible).1 ≡ some u
    → IsIn u eligible
unfolding choose_round_robin
round_robin-from counter [] u h = cc
round_robin-from counter (v ∷ []) u h = inl (ground arith)
round_robin-from counter (v ∷ w ∷ rest) u h =
    get_elem?-IsIn (v ∷ w ∷ rest) (uint64 (counter + 1) % length (v ∷ w ∷ rest)) u h

round_robin-finds :
    (counter : ℕ) (eligible : List Upstream)
    → eligible ≢ []
    → (choose_round_robin counter eligible).1 ≢ none
unfolding choose_round_robin
round_robin-finds counter [] h = absurd (h refl)
round_robin-finds counter (v ∷ []) h = λ e. cc
round_robin-finds counter (v ∷ w ∷ rest) h =
    get_elem?_total (v ∷ w ∷ rest) (uint64 (counter + 1) % length (v ∷ w ∷ rest))
      (mod-lt (uint64 (counter + 1)) (omega arith))

-- Round-robin keeps the contract of a selector.
pub round_robin-IsChooser : IsChooser choose_round_robin
unfolding choose_round_robin
round_robin-IsChooser = record {
  from_eligible = round_robin-from;
  finds = round_robin-finds;
  fails = λ counter. refl;
}

-- What pick number `k + 1` returns, the eligible set staying the same.
abbrev pub nth_choice : ℕ → ℕ → List Upstream → Option Upstream
nth_choice zero counter eligible = (choose_round_robin counter eligible).1
nth_choice (suc k) counter eligible = nth_choice k (choose_round_robin counter eligible).0 eligible

nth_choice-index :
    (k counter : ℕ) (eligible : List Upstream)
    → 1 < length eligible
    → counter + k + 1 < 2 ^ 64
    → nth_choice k counter eligible ≡ get_elem? eligible ((counter + k + 1) % length eligible)
unfolding choose_round_robin
nth_choice-index k counter [] h b = absurd (omega arith)
nth_choice-index k counter (u ∷ []) h b = absurd (omega arith)
nth_choice-index zero counter (u ∷ v ∷ rest) h b =
    let small : uint64 (counter + 1) ≡ counter + 0 + 1 = omega arith in
    ap (λ (n : ℕ). get_elem? (u ∷ v ∷ rest) (n % length (u ∷ v ∷ rest))) small
nth_choice-index (suc k) counter (u ∷ v ∷ rest) h b =
    let small : uint64 (counter + 1) ≡ counter + 1 = omega arith in
    let regroup : (counter + 1) + k + 1 ≡ counter + suc k + 1 = omega arith in
    rw small (
      nth_choice-index k (counter + 1) (u ∷ v ∷ rest) h (omega arith)
      ∙ ap (λ (n : ℕ). get_elem? (u ∷ v ∷ rest) (n % length (u ∷ v ∷ rest))) regroup)

-- Adding less than `n` to a remainder wraps at most once.
wraps_once :
    (n r k : ℕ)
    → r < n
    → k < n
    → ((r + k < n) × ((r + k) % n ≡ r + k)) ⊎ ((n ≤ r + k) × ((r + k) % n ≡ r + k - n))
wraps_once n r k p q = elim (dec_lt (r + k) n) [
  | yes h ↦ inl (h, mod-eq_of_lt h)
  | no h ↦
      let over : n ≤ r + k = omega arith in
      inr (over, mod-eq-sub-mod over ∙ mod-eq_of_lt (omega arith))
]

from_remainder : (counter n k : ℕ) → (counter + k + 1) % n ≡ ((counter + 1) % n + k) % n
from_remainder counter n k =
    let regroup : counter + k + 1 ≡ counter + 1 + k = omega arith in
    ap (λ (m : ℕ). m % n) regroup ∙ sym (mod-add-mod (counter + 1) n k)

turn_index : ℕ → ℕ → ℕ → ℕ
turn_index r n j = if leb r j then j - r else j + n - r

turn_index_lem :
    (r n j : ℕ) → r < n → j < n → (turn_index r n j < n) × ((r + turn_index r n j) % n ≡ j)
unfolding turn_index
turn_index_lem r n j p h = elim (dec_le r j) [
  | yes e ↦
      let k : j - r < n = omega arith in
      rw (le→leb r j e)
        (k, elim (wraps_once n r (j - r) p k) [ inl w ↦ omega arith | inr w ↦ omega arith ])
  | no e ↦
      let t : leb r j ≡ false = ground arith in
      let k : j + n - r < n = omega arith in
      rw t (k, elim (wraps_once n r (j + n - r) p k) [ inl w ↦ omega arith | inr w ↦ omega arith ])
]

turn_once :
    (counter n k l : ℕ) → k < n → l < n → (counter + k + 1) % n ≡ (counter + l + 1) % n → k ≡ l
turn_once counter n k l p q e =
    let r = (counter + 1) % n in
    let r_lt : r < n = mod-lt (counter + 1) (omega arith) in
    let same : (r + k) % n ≡ (r + l) % n =
      sym (from_remainder counter n k) ∙ e ∙ from_remainder counter n l in
    elim (wraps_once n r k r_lt p) [
      | inl a ↦ elim (wraps_once n r l r_lt q) [ inl b ↦ omega arith | inr b ↦ omega arith ]
      | inr a ↦ elim (wraps_once n r l r_lt q) [ inl b ↦ omega arith | inr b ↦ omega arith ]
    ]

-- No upstream stands in the list twice.
abbrev pub IsDistinct : List Upstream → Type 0
IsDistinct xs = (i j : ℕ) → i < length xs → j < length xs → get_elem? xs i ≡ get_elem? xs j → i ≡ j

-- While the eligible set stays the same, holds two upstreams or more and none twice, `length
-- eligible` picks in a row choose every upstream exactly once: the one at index `j` is the choice of
-- one pick `k` and of no other. (The uint64 counter does not wrap within these picks.)
pub nth_choice_once :
    (counter : ℕ) (eligible : List Upstream) (j : ℕ)
    → 1 < length eligible
    → counter + length eligible < 2 ^ 64
    → IsDistinct eligible
    → j < length eligible
    → (k : ℕ) × (k < length eligible)
      × (nth_choice k counter eligible ≡ get_elem? eligible j)
      × ((l : ℕ)
          → l < length eligible
          → nth_choice l counter eligible ≡ get_elem? eligible j
          → l ≡ k)
nth_choice_once counter eligible j h b distinct i =
    let n = length eligible in
    let r = (counter + 1) % n in
    let r_lt : r < n = mod-lt (counter + 1) (omega arith) in
    let k = turn_index r n j in
    let (k_lt, lands) = turn_index_lem r n j r_lt i in
    let reached : (counter + k + 1) % n ≡ j = from_remainder counter n k ∙ lands in
    (
      k,
      k_lt,
      nth_choice-index k counter eligible h (omega arith) ∙ ap (get_elem? eligible) reached,
      λ l l_lt e.
          let index = sym (nth_choice-index l counter eligible h (omega arith)) ∙ e in
          let there =
            distinct ((counter + l + 1) % n) j (mod-lt (counter + l + 1) (omega arith)) i index in
          turn_once counter n l k l_lt k_lt (there ∙ sym reached),
    )
