-- ===== src/Router/Coverage.antt =====
-- internal/router/router.go: which requests Match finds a route for, exact hosts and wildcards
-- together.
use l7rp.Base.{
  ◌≡◌, refl, ap, ◌∙◌, inl, inr, Bool, true, false, ◌&&◌, ◌||◌, not, List, [], ◌∷◌, ◌++◌, Option,
  none, some, arith, if◌then◌else◌, Bool-cases, Str, any, keep, to_lower, drop, str_eq,
  str_eq_sound,
}
use l7rp.Router.{
  Route, RouteMatch, Request, Router, insert_route, sort_routes, append_at, is_wildcard,
  index_routes, sort_buckets, insert_wildcard, sort_wildcards, build_router, matches_wildcard,
  accepts, match_in_bucket, canonicalize_host, bucket, match_wildcards, match,
}
use l7rp.Router.Matching.{path_of, is_exact, covers, exact_bucket}

abbrev pub is_found : Option RouteMatch → Bool
is_found none = false
is_found (some m) = true

any-insert_route :
    (p : Route → Bool) (r : Route) (routes : List Route)
    → any p (insert_route r routes) ≡ (p r || any p routes)
unfolding insert_route
any-insert_route p r [] = refl
any-insert_route p r (s ∷ routes) = ground (arith, any-insert_route p r routes)

any-sort_routes :
    (p : Route → Bool) (routes : List Route) → any p (sort_routes routes) ≡ any p routes
unfolding sort_routes
any-sort_routes p [] = refl
any-sort_routes p (r ∷ routes) =
    any-insert_route p r (sort_routes routes) ∙ ap (λ b. p r || b) (any-sort_routes p routes)

any-append :
    (p : Route → Bool) (xs : List Route) (r : Route) → any p (xs ++ r ∷ []) ≡ (any p xs || p r)
any-append p [] r = ground arith
any-append p (x ∷ xs) r = ground (arith, any-append p xs r)

any-keep :
    (p q : Route → Bool) (routes : List Route)
    → any p (keep q routes) ≡ any (λ r. q r && p r) routes
any-keep p q [] = refl
any-keep p q (r ∷ routes) = ground (arith, any-keep p q routes)

either_way :
    (w s m a x y : Bool)
    → ((((not w && s) && a) || x) || ((w && (m && a)) || y))
      ≡ (((if w then m else s) && a) || (x || y))
either_way true s true true x y = ground arith
either_way true s true false x y = ground arith
either_way true s false a x y = ground arith
either_way false s m a x y = ground arith

module _ (req : Request) (path host : Str) where
  -- An entry of the wildcards that serves the request.
  abbrev serves : Str × List Route → Bool
  serves e = matches_wildcard host e.0 && any (accepts req path) e.1

  found-match_in_bucket :
      (routes : List Route)
      → is_found (match_in_bucket routes req path host) ≡ any (accepts req path) routes
  unfolding match_in_bucket
  found-match_in_bucket [] = refl
  found-match_in_bucket (r ∷ routes) = ground (arith, found-match_in_bucket routes)

  found-match_wildcards :
      (m : List (Str × List Route)) → is_found (match_wildcards m req path host) ≡ any serves m
  unfolding match_wildcards
  found-match_wildcards [] = refl
  found-match_wildcards ((suffix, rs) ∷ m) =
      ground (arith, found-match_in_bucket rs, found-match_wildcards m)

  any-insert_wildcard :
      (e : Str × List Route) (m : List (Str × List Route))
      → any serves (insert_wildcard e m) ≡ (serves e || any serves m)
  unfolding insert_wildcard
  any-insert_wildcard e [] = refl
  any-insert_wildcard e (f ∷ m) = ground (arith, any-insert_wildcard e m)

  any-sort_wildcards : (m : List (Str × List Route)) → any serves (sort_wildcards m) ≡ any serves m
  unfolding sort_wildcards
  any-sort_wildcards [] = refl
  any-sort_wildcards (e ∷ m) =
      any-insert_wildcard e (sort_wildcards m) ∙ ap (λ b. serves e || b) (any-sort_wildcards m)

  any-sort_buckets : (m : List (Str × List Route)) → any serves (sort_buckets m) ≡ any serves m
  any-sort_buckets [] = refl
  any-sort_buckets ((k, rs) ∷ m) = rw (any-sort_routes (accepts req path) rs, any-sort_buckets m)

  any-append_at :
      (key : Str) (r : Route) (m : List (Str × List Route))
      → any serves (append_at key r m)
        ≡ (any serves m || (matches_wildcard host key && accepts req path r))
  unfolding append_at
  any-append_at key r [] = ground arith
  any-append_at key r ((k, rs) ∷ m) = elim (Bool-cases (str_eq k key)) [
    | inl e ↦
        let same : k ≡ key = str_eq_sound k key e in
        rw (append_at, e, any-append (accepts req path) rs r, ← same) (ground arith)
    | inr e ↦ rw (append_at, e, any-append_at key r m) (ground arith)
  ]

  abbrev by_wildcard : Route → Bool
  by_wildcard r =
      is_wildcard (to_lower r.host_pattern)
      && (matches_wildcard host (drop 1 (to_lower r.host_pattern)) && accepts req path r)

  any-index_routes :
      (routes : List Route) (t : Router)
      → any serves (index_routes routes t).host_wildcards
        ≡ (any serves t.host_wildcards || any by_wildcard routes)
  unfolding index_routes
  any-index_routes [] t = ground arith
  any-index_routes (r ∷ routes) t =
      let key = to_lower r.host_pattern in
      let in_exact =
        any-index_routes routes (record t { host_exact = append_at key r t.host_exact }) in
      let in_wildcards =
        any-index_routes routes
          (record t { host_wildcards = append_at (drop 1 key) r t.host_wildcards }) in
      elim (Bool-cases (is_wildcard key)) [
        | inl e ↦
            rw (index_routes, e)
              (in_wildcards ∙ rw (any-append_at (drop 1 key) r t.host_wildcards) (ground arith))
        | inr e ↦ rw (index_routes, e) in_exact
      ]

  -- A route is found by its own name or by a wildcard.
  covered :
      (routes : List Route)
      → (any (λ r. is_exact host r && accepts req path r) routes || any by_wildcard routes)
        ≡ any (λ r. covers host r && accepts req path r) routes
  covered [] = refl
  covered (r ∷ routes) =
      either_way (is_wildcard (to_lower r.host_pattern)) (str_eq (to_lower r.host_pattern) host)
        (matches_wildcard host (drop 1 (to_lower r.host_pattern))) (accepts req path r)
        (any (λ r. is_exact host r && accepts req path r) routes) (any by_wildcard routes)
      ∙ ap (λ b. (covers host r && accepts req path r) || b) (covered routes)

first_found :
    (first last : Option RouteMatch)
    → is_found (elim first [ some x ↦ some x | none ↦ last ]) ≡ (is_found first || is_found last)
first_found none last = refl
first_found (some x) last = refl

-- Match finds a route exactly when the configuration has one whose host pattern is the request's
-- host or a wildcard that stands for its first label, whose path prefix is one of the request's
-- path, and whose header predicates all hold.
pub match_found :
    (routes : List Route) (req : Request)
    → is_found (match (build_router routes) req)
      ≡ any (λ r. covers (canonicalize_host req.host) r && accepts req (path_of req) r) routes
unfolding match build_router
match_found routes req =
    let host = canonicalize_host req.host in
    let path = path_of req in
    let t = index_routes routes (record { host_exact = []; host_wildcards = [] }) in
    let wild =
      found-match_wildcards req path host (sort_wildcards (sort_buckets t.host_wildcards))
      ∙ any-sort_wildcards req path host (sort_buckets t.host_wildcards)
      ∙ any-sort_buckets req path host t.host_wildcards
      ∙ any-index_routes req path host routes (record { host_exact = []; host_wildcards = [] }) in
    let exact =
      ap (λ b. is_found (match_in_bucket b req path host)) (exact_bucket host routes)
      ∙ found-match_in_bucket req path host (sort_routes (keep (is_exact host) routes))
      ∙ any-sort_routes (accepts req path) (keep (is_exact host) routes)
      ∙ any-keep (accepts req path) (is_exact host) routes in
    first_found (match_in_bucket (bucket host (build_router routes).host_exact) req path host)
      (match_wildcards (build_router routes).host_wildcards req path host)
    ∙ rw (exact, wild) (covered req path host routes)
