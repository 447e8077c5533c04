-- ===== src/Lb/Selector.antt =====
-- internal/lb/selector.go: the eligible set, and what the five selectors have in common. A selector
-- is a function `choose` from its state and the eligible set; Pick computes the set and applies it.
-- `none` is ErrNoEligibleUpstream. The breakers of one Pick read the same instant.
pub mod Laws
use l7rp.Base.{
  ℕ, ◌≡◌, ◌≢◌, Bool, true, false, ◌&&◌, ◌||◌, not, List, [], ◌∷◌, Option, none, some, ◌==◌,
  if◌then◌else◌, any, Has,
}
use l7rp.Lb.Upstream.{Upstream, eligible_for_selection}

-- The pointers of a PickHint's Exclude.
unfoldable pub contains : List ℕ → ℕ → Bool
contains [] id = false
contains (x ∷ list) id = if x == id then true else contains list id

-- The pool behind the State calls, and the eligible set.
unfoldable pub eligible_set : ℕ → List Upstream → List ℕ → List Upstream × List Upstream
unfolding contains eligible_for_selection
eligible_set now [] exclude = ([], [])
eligible_set now (u ∷ pool) exclude =
    let (u', ready) = eligible_for_selection now u in
    let (pool', eligible) = eligible_set now pool exclude in
    (u' ∷ pool', if ready && not (contains exclude u'.id) then u' ∷ eligible else eligible)

abbrev pub Chooser : Type 0 → Type 0
Chooser S = S → List Upstream → S × Option Upstream

unfoldable pub pick :
    {S : Type 0} → Chooser S → ℕ → S → List Upstream → List ℕ → S × List Upstream × Option Upstream
unfolding eligible_set
pick choose now s pool exclude =
    let (pool', eligible) = eligible_set now pool exclude in
    let (s', chosen) = choose s eligible in (s', pool', chosen)

abbrev pub IsIn : Upstream → List Upstream → Type 0
IsIn u = Has (λ v. v ≡ u)

-- The contract that a caller of Pick relies on.
pub record IsChooser {S : Type 0} (choose : Chooser S) : Type 0 where
  pub from_eligible :
      (s : S) (eligible : List Upstream) (u : Upstream)
      → (choose s eligible).1 ≡ some u
      → IsIn u eligible
  pub finds : (s : S) (eligible : List Upstream) → eligible ≢ [] → (choose s eligible).1 ≢ none
  pub fails : (s : S) → (choose s []).1 ≡ none
