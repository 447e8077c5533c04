-- ===== src/Router/Matching.antt =====
-- internal/router/router.go: NewRouter and Match together, told from the routes as configured.
use l7rp.Base.{
  ◌≡◌, refl, sym, ap, ◌∙◌, inl, inr, Bool, ◌&&◌, not, List, [], ◌∷◌, ◌++◌, some, arith,
  if◌then◌else◌, Bool-cases, Str, keep, to_lower, drop, str_eq, bytes, is_empty, str_eq_sound,
  str_eq_refl,
}
use l7rp.Router.{
  Route, Request, Router, sort_routes, append_at, is_wildcard, index_routes, sort_buckets,
  build_router, matches_wildcard, canonicalize_host, bucket, match,
}
use l7rp.Router.Sorting.{best, matched, match_in_bucket-best}

-- The path that Match looks up.
abbrev pub path_of : Request → Str
path_of req = if is_empty req.escaped_path then bytes "/" else req.escaped_path

abbrev pub is_exact : Str → Route → Bool
is_exact host r =
    not (is_wildcard (to_lower r.host_pattern)) && str_eq (to_lower r.host_pattern) host

-- A route is for a host that its pattern is, or whose first label its wildcard stands for.
abbrev pub covers : Str → Route → Bool
covers host r =
    if is_wildcard (to_lower r.host_pattern)
    then matches_wildcard host (drop 1 (to_lower r.host_pattern))
    else str_eq (to_lower r.host_pattern) host

bucket-append_at :
    (key host : Str) (r : Route) (m : List (Str × List Route))
    → bucket host (append_at key r m)
      ≡ (if str_eq key host then bucket host m ++ r ∷ [] else bucket host m)
unfolding bucket append_at
bucket-append_at key host r [] = ground arith
bucket-append_at key host r ((k, rs) ∷ m) = ground (
  arith,
  str_eq_sound key host,
  str_eq_sound k key,
  str_eq_sound k host,
  str_eq_refl host,
  bucket-append_at key host r m,
)

append_assoc : (r : Route) (xs ys : List Route) → (xs ++ r ∷ []) ++ ys ≡ xs ++ r ∷ ys
append_assoc r [] ys = refl
append_assoc r (x ∷ xs) ys = ap (λ l. x ∷ l) (append_assoc r xs ys)

append_nil : (xs : List Route) → xs ++ [] ≡ xs
append_nil [] = refl
append_nil (x ∷ xs) = ap (λ l. x ∷ l) (append_nil xs)

-- The bucket of a host has its routes in configuration order.
bucket-index_routes :
    (host : Str) (routes : List Route) (t : Router)
    → bucket host (index_routes routes t).host_exact
      ≡ bucket host t.host_exact ++ keep (is_exact host) routes
unfolding index_routes
bucket-index_routes host [] t = sym (append_nil (bucket host t.host_exact))
bucket-index_routes host (r ∷ routes) t =
    let key = to_lower r.host_pattern in
    let in_exact =
      bucket-index_routes host routes (record t { host_exact = append_at key r t.host_exact }) in
    let in_wildcards =
      bucket-index_routes host routes
        (record t { host_wildcards = append_at (drop 1 key) r t.host_wildcards }) in
    elim (Bool-cases (is_wildcard key)) [
      | inl e ↦ rw (index_routes, e) in_wildcards
      | inr e ↦ elim (Bool-cases (str_eq key host)) [
        | inl s ↦
            rw (index_routes, e, s)
              (in_exact
                ∙ rw (bucket-append_at key host r t.host_exact, s)
                    (append_assoc r (bucket host t.host_exact) (keep (is_exact host) routes)))
        | inr s ↦
            rw (index_routes, e, s) (in_exact ∙ rw (bucket-append_at key host r t.host_exact, s))
      ]
    ]

bucket-sort_buckets :
    (host : Str) (m : List (Str × List Route))
    → bucket host (sort_buckets m) ≡ sort_routes (bucket host m)
unfolding bucket
bucket-sort_buckets host [] = unfold sort_routes in refl
bucket-sort_buckets host ((k, rs) ∷ m) = ground (arith, bucket-sort_buckets host m)

bucket_nil : (host : Str) (xs : List Route) → bucket host [] ++ xs ≡ xs
unfolding bucket
bucket_nil host xs = refl

pub exact_bucket :
    (host : Str) (routes : List Route)
    → bucket host (build_router routes).host_exact ≡ sort_routes (keep (is_exact host) routes)
unfolding build_router
exact_bucket host routes =
    let start : Router = record { host_exact = []; host_wildcards = [] } in
    bucket-sort_buckets host (index_routes routes start).host_exact
    ∙ ap sort_routes
        (bucket-index_routes host routes start ∙ bucket_nil host (keep (is_exact host) routes))

-- The routes whose pattern is the host itself come first: if one of them accepts the request, the
-- match is the best of them, by longest path prefix, then most header predicates, then first in the
-- configuration, whatever wildcard routes there are.
pub match_exact :
    (routes : List Route) (req : Request) (r : Route)
    → let host = canonicalize_host req.host in
      best req (path_of req) (keep (is_exact host) routes) ≡ some r
      → match (build_router routes) req ≡ matched (path_of req) host (some r)
unfolding match
match_exact routes req r h =
    let host = canonicalize_host req.host in
    let path = path_of req in
    let found =
      match_in_bucket-best (keep (is_exact host) routes) req path host ∙ ap (matched path host) h in
    rw (match, exact_bucket host routes, found)
