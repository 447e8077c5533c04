-- ===== src/Router/Examples.antt =====
-- A table of three routes for one host: two prefixes, and a canary by header.
use l7rp.Base.{any, ◌&&◌, ◌↔◌, ℕ, ◌≡◌, refl, List, [], ◌∷◌, some, Str, bytes}
use l7rp.Http.{values, canonical_key}
use l7rp.Router.{
  path_matches_prefix, predicates_match, comes_first, canonicalize_host, build_router, match,
  accepts, Route, HeaderPredicate, Request,
}
use l7rp.Router.Sorting.{matched}
use l7rp.Router.Matching.{path_of, covers, match_exact}
use l7rp.Router.Coverage.{is_found, match_found}
use l7rp.Router.Validation.{built, new_router}
use l7rp.Router.Validation.Meaning.{IsUnambiguous, IsOrdered, new_router_iff}

abbrev route : Str → Str → List HeaderPredicate → ℕ → Route
route host prefix predicates handler = record {
  name = prefix;
  host_pattern = host;
  path_prefix = prefix;
  header_predicates = predicates;
  handler = handler;
}

abbrev table : List Route
table =
    route (bytes "example.com") (bytes "/") [] 0
    ∷ route (bytes "example.com") (bytes "/v1") [] 1
    ∷ route (bytes "example.com") (bytes "/v1")
        (record { name = bytes "X-Canary"; value = bytes "1" } ∷ []) 2
    ∷ []

-- With a wildcard for the same hosts.
abbrev wide : List Route
wide = route (bytes "*.com") (bytes "/v1/users") [] 3 ∷ table

abbrev chosen : Route
chosen =
    route (bytes "example.com") (bytes "/v1")
      (record { name = bytes "X-Canary"; value = bytes "1" } ∷ []) 2

abbrev canary : Request
canary = record {
  host = bytes "Example.com:8080";
  escaped_path = bytes "/v1/users";
  header = (bytes "X-Canary", bytes "1" ∷ []) ∷ [];
}

match_exact_example :
    match (build_router wide) canary
    ≡ matched (path_of canary) (canonicalize_host (bytes "Example.com:8080")) (some chosen)
match_exact_example = match_exact wide canary chosen (
    unfold canonicalize_host path_matches_prefix predicates_match comes_first values
      canonical_key in
    refl)

match_found_example :
    is_found (match (build_router wide) canary)
    ≡ any (λ r. covers (canonicalize_host canary.host) r && accepts canary (path_of canary) r) wide
match_found_example = match_found wide canary

new_router_iff_example :
    (new_router wide ≡ built (build_router wide)) ↔ (IsUnambiguous wide × IsOrdered wide)
new_router_iff_example = new_router_iff wide
