-- ===== src/Router/Validation/Meaning.antt =====
-- internal/router/router.go: which tables NewRouter accepts.
use l7rp.Base.{
  ◌≡◌, refl, inl, inr, ◌⊎◌, ◌↔◌, Bool, true, false, ◌||◌, List, [], ◌∷◌, none, arith, Bool-cases,
  Option-cases, any, All,
}
use l7rp.Router.{Route, build_router}
use l7rp.Router.Validation.{
  RouteKey, route_key, key_eq, same_place, is_catch_all, check_duplicates, check_unreachable,
  validate, built, new_router,
}

-- No route has a key among those given, and no route has the key of one in front of it.
abbrev IsNew : List RouteKey → Route → Type 0
IsNew keys r = any (key_eq (route_key r)) keys ≡ false

abbrev pub IsUnambiguous : List Route → Type 0
IsUnambiguous [] = Unit
IsUnambiguous (r ∷ routes) =
    All (λ s. key_eq (route_key s) (route_key r) ≡ false) routes × IsUnambiguous routes

IsNew-cons :
    (k : RouteKey) (keys : List RouteKey) (routes : List Route)
    → All (IsNew (k ∷ keys)) routes
      ↔ (All (λ s. key_eq (route_key s) k ≡ false) routes × All (IsNew keys) routes)
IsNew-cons k keys [] = (λ h. (tt, tt), λ h. tt)
IsNew-cons k keys (r ∷ routes) =
    let (split, join) = IsNew-cons k keys routes in
    let (fresh, both) = or_iff (key_eq (route_key r) k) (any (key_eq (route_key r)) keys) in
    (
      λ h. (((fresh h.0).0, (split h.1).0), ((fresh h.0).1, (split h.1).1)),
      λ h. (both (h.0.0, h.1.0), join (h.0.1, h.1.1)),
    )
  where
    or_iff : (a b : Bool) → ((a || b) ≡ false) ↔ ((a ≡ false) × (b ≡ false))
    or_iff true b = (λ h. cc, λ h. cc h.0)
    or_iff false b = (λ h. (refl, h), λ h. h.1)

check_duplicates_iff :
    (keys : List RouteKey) (routes : List Route)
    → (check_duplicates keys routes ≡ none) ↔ (All (IsNew keys) routes × IsUnambiguous routes)
unfolding check_duplicates
check_duplicates_iff keys [] = (λ h. (tt, tt), λ h. refl)
check_duplicates_iff keys (r ∷ routes) =
    let k = route_key r in
    let (sound, complete) = check_duplicates_iff (k ∷ keys) routes in
    let (split, join) = IsNew-cons k keys routes in
    elim (Bool-cases (any (key_eq k) keys)) [
      | inl e ↦ rw e (λ h. cc, λ h. let clash : true ≡ false = h.0.0 in cc)
      | inr e ↦ rw e (
        λ h.
            let found = sound h in
            let apart = split found.0 in ((refl, apart.1), (apart.0, found.1)),
        λ h. complete (join (h.1.0, h.0.1), h.1.1),
      )
    ]

-- A route that a catch-all at the same host and prefix does not hide.
abbrev IsReachable : List Route → Route → Type 0
IsReachable open_catch_all s = (is_catch_all s ≡ true) ⊎ (any (same_place s) open_catch_all ≡ false)

abbrev pub IsOrdered : List Route → Type 0
IsOrdered [] = Unit
IsOrdered (r ∷ routes) =
    (is_catch_all r ≡ true → All (λ s. (is_catch_all s ≡ true) ⊎ (same_place s r ≡ false)) routes)
    × IsOrdered routes

IsReachable-cons :
    (r : Route) (open_catch_all routes : List Route)
    → All (IsReachable (r ∷ open_catch_all)) routes ↔ (
        All (λ s. (is_catch_all s ≡ true) ⊎ (same_place s r ≡ false)) routes
        × All (IsReachable open_catch_all) routes)
IsReachable-cons r open_catch_all [] = (λ h. (tt, tt), λ h. tt)
IsReachable-cons r open_catch_all (s ∷ routes) =
    let (split, join) = IsReachable-cons r open_catch_all routes in
    let (fresh, both) =
      or_iff (is_catch_all s) (same_place s r) (any (same_place s) open_catch_all) in
    (
      λ h. (((fresh h.0).0, (split h.1).0), ((fresh h.0).1, (split h.1).1)),
      λ h. (both (h.0.0, h.1.0), join (h.0.1, h.1.1)),
    )
  where
    or_iff :
        (c a b : Bool)
        → ((c ≡ true) ⊎ ((a || b) ≡ false))
          ↔ (((c ≡ true) ⊎ (a ≡ false)) × ((c ≡ true) ⊎ (b ≡ false)))
    or_iff true a b = (λ h. (inl refl, inl refl), λ h. inl refl)
    or_iff false true b = (λ h. ground arith, λ h. ground arith)
    or_iff false false b = (λ h. (inr refl, h), λ h. h.1)

check_unreachable_iff :
    (open_catch_all routes : List Route)
    → (check_unreachable open_catch_all routes ≡ none)
      ↔ (All (IsReachable open_catch_all) routes × IsOrdered routes)
unfolding check_unreachable
check_unreachable_iff open_catch_all [] = (λ h. (tt, tt), λ h. refl)
check_unreachable_iff open_catch_all (r ∷ routes) =
    let behind = check_unreachable_iff (r ∷ open_catch_all) routes in
    let beside = check_unreachable_iff open_catch_all routes in
    let (split, join) = IsReachable-cons r open_catch_all routes in
    elim (Bool-cases (is_catch_all r)) [
      | inl e ↦
          rw (check_unreachable, e)
            (
              λ h.
                  let found = behind.0 h in
                  let apart = split found.0 in ((inl refl, apart.1), (λ t. apart.0, found.1)),
              λ h. behind.1 (join (h.1.0 refl, h.0.1), h.1.1),
            )
      | inr e ↦ elim (Bool-cases (any (same_place r) open_catch_all)) [
        | inl b ↦ rw (check_unreachable, e, b) (λ h. cc, λ h. ground arith)
        | inr b ↦
            rw (check_unreachable, e, b)
              (
                λ h. let found = beside.0 h in ((inr refl, found.0), (λ t. cc, found.1)),
                λ h. beside.1 (h.0.1, h.1.1),
              )
      ]
    ]

All-none : (routes : List Route) → All (IsNew []) routes × All (IsReachable []) routes
All-none [] = (tt, tt)
All-none (r ∷ routes) = let rest = All-none routes in ((refl, rest.0), (inr refl, rest.1))

-- NewRouter builds the router of a table exactly when no two routes have the same host, path prefix
-- and predicatesKey, and no route without predicates stands in front of one with predicates at the
-- same host and path prefix. (The parts of a predicatesKey are not escaped, so this is less than
-- to say that their predicates differ.)
pub new_router_iff :
    (routes : List Route)
    → (new_router routes ≡ built (build_router routes)) ↔ (IsUnambiguous routes × IsOrdered routes)
unfolding new_router validate
new_router_iff routes =
    let (duplicates, unique) = check_duplicates_iff [] routes in
    let (hidden, ordered) = check_unreachable_iff [] routes in
    let nothing = All-none routes in
    elim (Option-cases (check_duplicates [] routes)) [
      | inl d ↦ elim (Option-cases (check_unreachable [] routes)) [
        | inl u ↦ rw (new_router, validate, d, u) (λ h. ((duplicates d).1, (hidden u).1), λ h. refl)
        | inr (x, u) ↦
            rw (new_router, validate, d, u)
              (λ h. cc, λ h. let clash = ordered (nothing.1, h.1) in cc)
      ]
      | inr (x, d) ↦
          rw (new_router, validate, d) (λ h. cc, λ h. let clash = unique (nothing.0, h.0) in cc)
    ]
