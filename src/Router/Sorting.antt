-- ===== src/Router/Sorting.antt =====
-- internal/router/router.go: a search through a sorted bucket finds what a scan of the routes in
-- configuration order takes for the best.
use l7rp.Base.{
  ◌≡◌, refl, sym, ap, ◌∙◌, inl, inr, true, false, List, [], ◌∷◌, Option, none, some, arith,
  if◌then◌else◌, Bool-cases, Str, All,
}
use l7rp.Router.{
  Route, RouteMatch, Request, comes_first, insert_route, sort_routes, accepts, strip_prefix,
  match_in_bucket,
}

-- The better of a route and what was found behind it.
abbrev pub or_better : Route → Option Route → Option Route
or_better r none = some r
or_better r (some s) = if comes_first s r then some s else some r

-- Of the accepting routes the one with the longest path prefix, then with the most predicates, then
-- the first in the configuration.
abbrev pub best : Request → Str → List Route → Option Route
best req path [] = none
best req path (r ∷ routes) =
    if accepts req path r then or_better r (best req path routes) else best req path routes

abbrev first_accepting : Request → Str → List Route → Option Route
first_accepting req path [] = none
first_accepting req path (r ∷ routes) =
    if accepts req path r then some r else first_accepting req path routes

abbrev IsSorted : List Route → Type 0
IsSorted [] = Unit
IsSorted (r ∷ routes) = All (λ s. comes_first s r ≡ false) routes × IsSorted routes

-- The order is strict and weak.
pub comes_first_asym : (a b : Route) → comes_first a b ≡ true → comes_first b a ≡ false
unfolding comes_first
comes_first_asym a b h = ground arith

pub not-comes_first_trans :
    (a b c : Route) → comes_first a b ≡ false → comes_first b c ≡ false → comes_first a c ≡ false
unfolding comes_first
not-comes_first_trans a b c h k = ground arith

All-insert_route :
    (P : Route → Type 0) (r : Route) (routes : List Route)
    → P r
    → All P routes
    → All P (insert_route r routes)
unfolding insert_route
All-insert_route P r [] p h = (p, tt)
All-insert_route P r (s ∷ routes) p h = elim (Bool-cases (comes_first s r)) [
  | inl e ↦ rw e (h.0, All-insert_route P r routes p h.1)
  | inr e ↦ rw e (p, h)
]

All-behind :
    (r s : Route) (routes : List Route)
    → comes_first s r ≡ false
    → All (λ t. comes_first t s ≡ false) routes
    → All (λ t. comes_first t r ≡ false) routes
All-behind r s [] e h = tt
All-behind r s (t ∷ routes) e h = (not-comes_first_trans t s r h.0 e, All-behind r s routes e h.1)

insert_route-IsSorted :
    (r : Route) (routes : List Route) → IsSorted routes → IsSorted (insert_route r routes)
unfolding insert_route
insert_route-IsSorted r [] h = (tt, tt)
insert_route-IsSorted r (s ∷ routes) h = elim (Bool-cases (comes_first s r)) [
  | inl e ↦ rw e (
    All-insert_route (λ t. comes_first t s ≡ false) r routes (comes_first_asym s r e) h.0,
    insert_route-IsSorted r routes h.1,
  )
  | inr e ↦ rw e ((e, All-behind r s routes e h.0), h)
]

sort_routes-IsSorted : (routes : List Route) → IsSorted (sort_routes routes)
unfolding sort_routes
sort_routes-IsSorted [] = tt
sort_routes-IsSorted (r ∷ routes) =
    insert_route-IsSorted r (sort_routes routes) (sort_routes-IsSorted routes)

module _ (req : Request) (path : Str) where
  or_better-behind :
      (r : Route) (routes : List Route)
      → All (λ t. comes_first t r ≡ false) routes
      → or_better r (first_accepting req path routes) ≡ some r
  or_better-behind r [] h = refl
  or_better-behind r (s ∷ routes) h = elim (Bool-cases (accepts req path s)) [
    | inl e ↦ rw (e, h.0)
    | inr e ↦ rw e (or_better-behind r routes h.1)
  ]

  first_accepting-insert_route :
      (r : Route) (routes : List Route)
      → IsSorted routes
      → first_accepting req path (insert_route r routes) ≡ (
          if accepts req path r
          then or_better r (first_accepting req path routes)
          else first_accepting req path routes)
  unfolding insert_route
  first_accepting-insert_route r [] h = refl
  first_accepting-insert_route r (s ∷ routes) h = elim (Bool-cases (comes_first s r)) [
    | inl e ↦ elim (Bool-cases (accepts req path s)) [
      | inl a ↦ elim (Bool-cases (accepts req path r)) [
        | inl b ↦ rw (e, a, b, e)
        | inr b ↦ rw (e, a, b)
      ]
      | inr a ↦ rw (e, a) (first_accepting-insert_route r routes h.1)
    ]
    | inr e ↦
        let first = or_better-behind r (s ∷ routes) (e, All-behind r s routes e h.0) in
        elim (Bool-cases (accepts req path r)) [ inl b ↦ rw (e, b) (sym first) | inr b ↦ rw (e, b) ]
  ]

  best-first_accepting :
      (routes : List Route) → first_accepting req path (sort_routes routes) ≡ best req path routes
  unfolding sort_routes
  best-first_accepting [] = refl
  best-first_accepting (r ∷ routes) =
      first_accepting-insert_route r (sort_routes routes) (sort_routes-IsSorted routes)
      ∙ rw (best-first_accepting routes)

abbrev pub matched : Str → Str → Option Route → Option RouteMatch
matched path host none = none
matched path host (some r) =
    some (record { route = r; path_tail = strip_prefix path r.path_prefix; host = host })

match_in_bucket-first :
    (routes : List Route) (req : Request) (path host : Str)
    → match_in_bucket routes req path host ≡ matched path host (first_accepting req path routes)
unfolding match_in_bucket
match_in_bucket-first [] req path host = refl
match_in_bucket-first (r ∷ routes) req path host = elim (Bool-cases (accepts req path r)) [
  | inl e ↦ rw e
  | inr e ↦ rw e (match_in_bucket-first routes req path host)
]

-- The search through a sorted bucket returns the best accepting route: longest path prefix, then
-- most header predicates, then first in configuration order.
pub match_in_bucket-best :
    (routes : List Route) (req : Request) (path host : Str)
    → match_in_bucket (sort_routes routes) req path host ≡ matched path host (best req path routes)
match_in_bucket-best routes req path host =
    match_in_bucket-first (sort_routes routes) req path host
    ∙ ap (matched path host) (best-first_accepting req path routes)
