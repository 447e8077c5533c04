-- ===== src/Lb/Selector/Laws.antt =====
-- internal/lb/selector.go: what Pick returns, for every selector that keeps the contract.
use l7rp.Base.{
  ℕ, ◌≡◌, refl, sym, ◌↔◌, inl, inr, Bool, true, false, ◌&&◌, not, List, [], ◌∷◌, map, none, some,
  arith, ◌==◌, if◌then◌else◌, Bool-cases, any, keep, Has, All,
}
use l7rp.Lb.Breaker.{is_open, advance_locked, current_state}
use l7rp.Lb.Upstream.{Upstream, eligible_for_selection}
use l7rp.Lb.Selector.{contains, eligible_set, Chooser, pick, IsIn, IsChooser}

-- The upstream with its breaker moved on to `now`, and whether it may be chosen.
abbrev pub at_instant : ℕ → Upstream → Upstream
at_instant now u = (eligible_for_selection now u).0

abbrev pub is_selectable : ℕ → List ℕ → Upstream → Bool
is_selectable now exclude u =
    u.eligible
    && not (is_open (advance_locked now u.breaker).state)
    && not (any (λ x. x == u.id) exclude)

pub contains-any : (list : List ℕ) (id : ℕ) → contains list id ≡ any (λ x. x == id) list
unfolding contains
contains-any [] id = refl
contains-any (x ∷ list) id = ground (arith, contains-any list id)

eligible_for_selection-selectable :
    (now : ℕ) (exclude : List ℕ) (u : Upstream)
    → ((eligible_for_selection now u).1
        && not (contains exclude (eligible_for_selection now u).0.id))
      ≡ is_selectable now exclude u
unfolding eligible_for_selection current_state
eligible_for_selection-selectable now exclude u = ground (arith, contains-any exclude u.id)

-- The eligible set is the selectable part of the pool, in the pool's order, and every breaker that
-- was asked has moved on.
pub eligible_set-keep :
    (now : ℕ) (pool : List Upstream) (exclude : List ℕ)
    → ((eligible_set now pool exclude).0 ≡ map (at_instant now) pool)
      × ((eligible_set now pool exclude).1
          ≡ map (at_instant now) (keep (is_selectable now exclude) pool))
unfolding eligible_set
eligible_set-keep now [] exclude = (refl, refl)
eligible_set-keep now (u ∷ pool) exclude =
    let (same, rest) = eligible_set-keep now pool exclude in
    let s = eligible_for_selection-selectable now exclude u in
    elim (Bool-cases (is_selectable now exclude u)) [
      | inl e ↦ (rw same, rw (s, e, rest))
      | inr e ↦ (rw same, rw (s, e, rest))
    ]

keep-IsIn :
    (now : ℕ) (p : Upstream → Bool) (pool : List Upstream) (u : Upstream)
    → IsIn u (map (at_instant now) (keep p pool))
    → Has (λ v. (p v ≡ true) × (at_instant now v ≡ u)) pool
keep-IsIn now p [] u h = absurd h
keep-IsIn now p (v ∷ pool) u h = elim (Bool-cases (p v)) [
  | inl e ↦ first (p v) e h (keep-IsIn now p pool u)
  | inr e ↦ inr (keep-IsIn now p pool u (rw e at h))
]
  where
    first :
        (b : Bool)
        → p v ≡ true
        → IsIn u (map (at_instant now) (if p v then v ∷ keep p pool else keep p pool))
        → (IsIn u (map (at_instant now) (keep p pool))
            → Has (λ v. (p v ≡ true) × (at_instant now v ≡ u)) pool)
        → Has (λ v. (p v ≡ true) × (at_instant now v ≡ u)) (v ∷ pool)
    first b e k rest = elim (rw e at k) [ inl q ↦ inl (e, q) | inr m ↦ inr (rest m) ]

keep-nil_iff :
    (p : Upstream → Bool) (f : Upstream → Upstream) (pool : List Upstream)
    → (map f (keep p pool) ≡ []) ↔ All (λ v. p v ≡ false) pool
keep-nil_iff p f [] = (λ h. tt, λ h. refl)
keep-nil_iff p f (v ∷ pool) = elim (Bool-cases (p v)) [
  | inl e ↦ (λ h. absurd (no_nil (rw e at h)), λ h. let clash : p v ≡ false = h.0 in cc)
  | inr e ↦
      (λ h. (e, (keep-nil_iff p f pool).0 (rw e at h)), λ h. rw e ((keep-nil_iff p f pool).1 h.1))
]
  where
    no_nil : f v ∷ map f (keep p pool) ≡ [] → ⊥
    no_nil h = cc

-- Whatever selector keeps the contract: an upstream that Pick returns stands in the pool, its
-- eligible flag is set, its breaker is not open at that instant and the hint does not exclude it;
-- Pick fails exactly when no upstream of the pool is so.
pub pick-selectable :
    {S : Type 0} (choose : Chooser S) (now : ℕ) (s : S) (pool : List Upstream) (exclude : List ℕ)
    → IsChooser choose
    → ((u : Upstream)
        → (pick choose now s pool exclude).2 ≡ some u
        → Has (λ v. (is_selectable now exclude v ≡ true) × (at_instant now v ≡ u)) pool)
      × (((pick choose now s pool exclude).2 ≡ none)
          ↔ All (λ v. is_selectable now exclude v ≡ false) pool)
unfolding pick
pick-selectable choose now s pool exclude c =
    let chosen = (eligible_set now pool exclude).1 in
    let same = (eligible_set-keep now pool exclude).1 in
    let nothing = keep-nil_iff (is_selectable now exclude) (at_instant now) pool in
    (
      λ u h.
          keep-IsIn now (is_selectable now exclude) pool u
            (rw same at (c.from_eligible s chosen u h)),
      (λ h. nothing.0 (empty_of_none chosen same h), λ h. none_of_empty (rw (nothing.1 h) at same)),
    )
  where
    empty_of_none :
        (xs : List Upstream)
        → xs ≡ map (at_instant now) (keep (is_selectable now exclude) pool)
        → (choose s xs).1 ≡ none
        → map (at_instant now) (keep (is_selectable now exclude) pool) ≡ []
    empty_of_none [] e h = sym e
    empty_of_none (x ∷ xs) e h = absurd (c.finds s (x ∷ xs) (λ k. cc) h)

    none_of_empty :
        (eligible_set now pool exclude).1 ≡ []
        → (choose s (eligible_set now pool exclude).1).1 ≡ none
    none_of_empty e = rw e (c.fails s)
