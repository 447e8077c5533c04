-- ===== src/Router/Validation.antt =====
-- internal/router/router.go: the validation of the routes, and NewRouter whole. A map that only
-- tells what was seen is the list of its keys; the texts of the errors are not modelled.
pub mod Meaning
use l7rp.Base.{
  ℕ, Bool, true, false, ◌&&◌, List, [], ◌∷◌, ◌++◌, Option, none, some, if◌then◌else◌, Str, bytes,
  str_eq, to_lower, any, map,
}
use l7rp.Config.Validate.{join, sort_parts}
use l7rp.Router.{HeaderPredicate, Route, Router, build_router}

pub data RouteError : Type 0 where
  duplicate_route unreachable_route : RouteError

pub record RouteKey : Type 0 where
  pub host : Str
  pub prefix : Str
  pub preds : Str

-- sort.Strings as the sort of the configuration's own predicatesKey.
unfoldable pub predicates_key : List HeaderPredicate → Str
predicates_key ps =
    join (bytes ";") (sort_parts [] (map (λ p. to_lower p.name ++ bytes "=" ++ p.value) ps))

unfoldable pub route_key : Route → RouteKey
unfolding predicates_key
route_key r = record {
  host = to_lower r.host_pattern;
  prefix = r.path_prefix;
  preds = predicates_key r.header_predicates;
}

abbrev pub key_eq : RouteKey → RouteKey → Bool
key_eq a b = str_eq a.host b.host && str_eq a.prefix b.prefix && str_eq a.preds b.preds

-- Whether two routes have the same host and path prefix.
abbrev pub same_place : Route → Route → Bool
same_place r s =
    str_eq (to_lower r.host_pattern) (to_lower s.host_pattern) && str_eq r.path_prefix s.path_prefix

abbrev pub is_catch_all : Route → Bool
is_catch_all r = elim (r.header_predicates) [ [] ↦ true | p ∷ ps ↦ false ]

unfoldable pub check_duplicates : List RouteKey → List Route → Option RouteError
check_duplicates keys [] = none
check_duplicates keys (r ∷ routes) =
    let k = route_key r in
    let rest = check_duplicates (k ∷ keys) routes in
    if any (key_eq k) keys then some duplicate_route else rest

-- `open_catch_all` holds routes in place of their host and prefix.
unfoldable pub check_unreachable : List Route → List Route → Option RouteError
check_unreachable open_catch_all [] = none
check_unreachable open_catch_all (r ∷ routes) =
    let rest =
      check_unreachable (if is_catch_all r then r ∷ open_catch_all else open_catch_all) routes in
    if is_catch_all r
    then rest
    else if any (same_place r) open_catch_all
    then some unreachable_route
    else rest

unfoldable pub validate : List Route → Option RouteError
unfolding check_duplicates check_unreachable
validate routes = elim (check_duplicates [] routes) [
  | some e ↦ some e
  | none ↦ check_unreachable [] routes
]

pub data NewRouter : Type 0 where
  built : Router → NewRouter
  rejected : RouteError → NewRouter

unfoldable pub new_router : List Route → NewRouter
unfolding validate
new_router routes = elim (validate routes) [
  | some e ↦ rejected e
  | none ↦ built (build_router routes)
]
