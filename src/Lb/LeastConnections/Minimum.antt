-- ===== src/Lb/LeastConnections/Minimum.antt =====
-- internal/lb/leastconnections.go: the choice is a least-loaded upstream, and each can be it.
use l7rp.Base.{
  ℕ, zero, suc, ◌≤◌, ◌<◌, ◌≡◌, refl, sym, ap, ◌∙◌, All-mono, ◌≢◌, inl, inr, ◌⊎◌, List, [], ◌∷◌,
  Option, none, some, arith, ◌==◌, ltb, if◌then◌else◌, Bool-cases, count_if, All, Has,
}
use l7rp.Lb.Upstream.{Upstream}
use l7rp.Lb.Selector.{IsIn, IsChooser, Chooser}
use l7rp.Lb.Elements.{All-IsIn, All-Has}
use l7rp.Lb.LeastConnections.{max_int64, min_in_flight, tie_at, choose_least_connections}

min_in_flight-le :
    (least : ℕ) (xs : List Upstream)
    → (min_in_flight least xs ≤ least) × All (λ v. min_in_flight least xs ≤ v.in_flight) xs
unfolding min_in_flight
min_in_flight-le least [] = (omega arith, tt)
min_in_flight-le least (u ∷ xs) =
    let (le, all) = min_in_flight-le (if ltb u.in_flight least then u.in_flight else least) xs in
    (ground arith, (ground arith, all))

-- The minimum is held by some upstream, unless it is the start value.
min_in_flight-Has :
    (least : ℕ) (xs : List Upstream)
    → (min_in_flight least xs ≡ least) ⊎ Has (λ v. v.in_flight ≡ min_in_flight least xs) xs
unfolding min_in_flight
min_in_flight-Has least [] = inl refl
min_in_flight-Has least (u ∷ xs) =
    ground (arith, min_in_flight-Has (if ltb u.in_flight least then u.in_flight else least) xs)

tie_at_sound :
    (least index : ℕ) (xs : List Upstream) (u : Upstream)
    → tie_at least index xs ≡ some u
    → IsIn u xs × (u.in_flight ≡ least)
unfolding tie_at
tie_at_sound least index [] u h = cc
tie_at_sound least zero (x ∷ xs) u h = ground (arith, tie_at_sound least zero xs u)
tie_at_sound least (suc i) (x ∷ xs) u h =
    ground (arith, tie_at_sound least i xs u, tie_at_sound least (suc i) xs u)

abbrev pub ties : ℕ → List Upstream → ℕ
ties least = count_if (λ x. x.in_flight == least)

tie_at_total :
    (least index : ℕ) (xs : List Upstream) → index < ties least xs → tie_at least index xs ≢ none
unfolding tie_at
tie_at_total least index [] h = absurd (omega arith)
tie_at_total least zero (x ∷ xs) h = ground (arith, tie_at_total least zero xs)
tie_at_total least (suc i) (x ∷ xs) h =
    ground (arith, tie_at_total least i xs, tie_at_total least (suc i) xs)

ties_pos : (least : ℕ) (xs : List Upstream) → Has (λ v. v.in_flight ≡ least) xs → 0 < ties least xs
ties_pos least [] h = absurd h
ties_pos least (x ∷ xs) (inl h) = ground arith
ties_pos least (x ∷ xs) (inr h) = ground (arith, ties_pos least xs h)

-- The index at which the tie-break reaches a given upstream.
tie_index :
    (least : ℕ) (xs : List Upstream) (u : Upstream)
    → IsIn u xs
    → u.in_flight ≡ least
    → (i : ℕ) × (i < ties least xs) × (tie_at least i xs ≡ some u)
unfolding tie_at
tie_index least [] u h e = absurd h
tie_index least (x ∷ xs) u (inl h) e = (0, ground arith, ground arith)
tie_index least (x ∷ xs) u (inr h) e =
    let (i, i_lt, at) = tie_index least xs u h e in
    elim (Bool-cases (x.in_flight == least)) [
      | inl t ↦ (suc i, ground arith, ground arith)
      | inr t ↦ (i, ground arith, rw t at)
    ]

-- A generator that stays in the range that it is asked for, as IntN does.
abbrev pub IsInRange : (ℕ → ℕ) → Type 0
IsInRange draw = (n : ℕ) → 0 < n → draw n < n

abbrev pub IsInt64 : List Upstream → Type 0
IsInt64 = All (λ v. v.in_flight ≤ max_int64)

least-Has :
    (u : Upstream) (xs : List Upstream)
    → IsInt64 (u ∷ xs)
    → Has (λ v. v.in_flight ≡ min_in_flight max_int64 (u ∷ xs)) (u ∷ xs)
least-Has u xs b = elim (min_in_flight-Has max_int64 (u ∷ xs)) [
  | inl e ↦ let below = (min_in_flight-le max_int64 (u ∷ xs)).1 in inl (omega arith)
  | inr h ↦ h
]

-- The tie that is taken: the only one, or the one that is drawn.
abbrev taken : (ℕ → ℕ) → ℕ → ℕ
taken draw n = if n == 1 then 0 else draw n

taken-lt : (draw : ℕ → ℕ) (n : ℕ) → IsInRange draw → 0 < n → taken draw n < n
taken-lt draw n r h = ground (arith, r n h)

settle :
    (u : Upstream) (o : Option Upstream)
    → o ≢ none
    → (let r : Option Upstream = elim o [ some x ↦ some x | none ↦ some u ] in r) ≡ o
settle u none h = absurd (h refl)
settle u (some x) h = refl

choose-tie :
    (draw : ℕ → ℕ) (u v : Upstream) (rest : List Upstream)
    → IsInRange draw
    → IsInt64 (u ∷ v ∷ rest)
    → let xs = u ∷ v ∷ rest in
      let least = min_in_flight max_int64 xs in
      choose_least_connections draw xs ≡ tie_at least (taken draw (ties least xs)) xs
unfolding choose_least_connections
choose-tie draw u v rest r b =
    let xs = u ∷ v ∷ rest in
    let least = min_in_flight max_int64 xs in
    let some_tie =
      tie_at_total least (taken draw (ties least xs)) xs
        (taken-lt draw (ties least xs) r (ties_pos least xs (least-Has u (v ∷ rest) b))) in
    settle u (tie_at least (taken draw (ties least xs)) xs) some_tie

-- The choice has no more requests in flight than any other eligible upstream, whatever is drawn.
-- (Every count is an int64.)
pub choose_least_connections-minimal :
    (draw : ℕ → ℕ) (eligible : List Upstream) (u : Upstream)
    → IsInRange draw
    → IsInt64 eligible
    → choose_least_connections draw eligible ≡ some u
    → IsIn u eligible × All (λ v. u.in_flight ≤ v.in_flight) eligible
choose_least_connections-minimal draw [] u r b h = unfold choose_least_connections in cc h
choose_least_connections-minimal draw (x ∷ []) u r b h =
    let e : x ≡ u = unfold choose_least_connections in cc h in (inl e, (rw e (omega arith), tt))
choose_least_connections-minimal draw (x ∷ y ∷ rest) u r b h =
    let xs = x ∷ y ∷ rest in
    let least = min_in_flight max_int64 xs in
    let (in_xs, is_least) =
      tie_at_sound least (taken draw (ties least xs)) xs u
        (sym (choose-tie draw x y rest r b) ∙ h) in
    (
      in_xs,
      All-mono (λ v. least ≤ v.in_flight) xs (λ v le. rw is_least le)
          (min_in_flight-le max_int64 xs).1,
    )

-- Every least-loaded upstream is the choice for some draw.
pub choose_least_connections-each :
    (eligible : List Upstream) (u : Upstream)
    → IsInt64 eligible
    → IsIn u eligible
    → All (λ v. u.in_flight ≤ v.in_flight) eligible
    → (draw : ℕ → ℕ) × IsInRange draw × (choose_least_connections draw eligible ≡ some u)
choose_least_connections-each [] u b m h = absurd m
choose_least_connections-each (x ∷ []) u b (inl e) h =
    (λ n. 0, λ n p. p, unfold choose_least_connections in ap some e)
choose_least_connections-each (x ∷ []) u b (inr m) h = absurd m
choose_least_connections-each (x ∷ y ∷ rest) u b m h =
    let xs = x ∷ y ∷ rest in
    let least = min_in_flight max_int64 xs in
    let below : least ≤ u.in_flight =
      All-IsIn (λ v. least ≤ v.in_flight) xs u (min_in_flight-le max_int64 xs).1 m in
    let above : u.in_flight ≤ least =
      All-Has (λ v. u.in_flight ≤ v.in_flight) (λ v. v.in_flight ≡ least) (u.in_flight ≤ least) xs h
        (least-Has x (y ∷ rest) b) (λ v le e. omega arith) in
    let (i, i_lt, at) = tie_index least xs u m (omega arith) in
    let draw : ℕ → ℕ = λ n. if ltb i n then i else 0 in
    let in_range : IsInRange draw = λ n p. ground arith in
    let drawn : taken draw (ties least xs) ≡ i = ground arith in
    (
      draw,
      in_range,
      choose-tie draw x y rest in_range b ∙ ap (λ (n : ℕ). tie_at least n xs) drawn ∙ at,
    )

-- As a selector the state is what the generator yields.
unfoldable pub least_connections : Chooser (ℕ → ℕ)
least_connections draw eligible = (draw, choose_least_connections draw eligible)

some_always :
    (x : Upstream) (o : Option Upstream)
    → (let r : Option Upstream = elim o [ some y ↦ some y | none ↦ some x ] in r) ≢ none
some_always x none = λ e. cc
some_always x (some y) = λ e. cc

from_settled :
    (u x : Upstream) (o : Option Upstream) (xs : List Upstream)
    → (let r : Option Upstream = elim o [ some y ↦ some y | none ↦ some x ] in r) ≡ some u
    → (o ≡ some u → IsIn u (x ∷ xs))
    → IsIn u (x ∷ xs)
from_settled u x none xs h f = inl (ground arith)
from_settled u x (some y) xs h f = f h

-- Least-connections keeps the contract of a selector, whatever the generator yields.
pub least_connections-IsChooser : IsChooser least_connections
unfolding least_connections choose_least_connections
least_connections-IsChooser = record { from_eligible = from; finds = found; fails = λ draw. refl }
  where
    from :
        (draw : ℕ → ℕ) (xs : List Upstream) (u : Upstream)
        → (least_connections draw xs).1 ≡ some u
        → IsIn u xs
    from draw [] u h = cc
    from draw (x ∷ []) u h = inl (ground arith)
    from draw (x ∷ y ∷ rest) u h =
        let xs = x ∷ y ∷ rest in
        let least = min_in_flight max_int64 xs in
        let index = taken draw (ties least xs) in
        from_settled u x (tie_at least index xs) (y ∷ rest) h
          (λ e. (tie_at_sound least index xs u e).0)

    found : (draw : ℕ → ℕ) (xs : List Upstream) → xs ≢ [] → (least_connections draw xs).1 ≢ none
    found draw [] n = absurd (n refl)
    found draw (x ∷ []) n = λ e. cc
    found draw (x ∷ y ∷ rest) n =
        let xs = x ∷ y ∷ rest in
        let least = min_in_flight max_int64 xs in
        some_always x (tie_at least (taken draw (ties least xs)) xs)
