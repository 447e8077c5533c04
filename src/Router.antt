-- ===== src/Router.antt =====
-- internal/router/router.go: the table of routes and its matcher. A handler is a number. The maps
-- are association lists in order of insertion; Go iterates over hostExact and wildcardMap in any
-- order, on which nothing depends but the order of wildcards whose suffixes are equally long, and of
-- those no two match one host.
pub mod Sorting
pub mod Matching
pub mod Coverage
pub mod Validation
mod Examples
use l7rp.Base.{
  ℕ, zero, suc, ◌+◌, ◌-◌, Bool, true, false, ◌&&◌, ◌||◌, not, List, [], ◌∷◌, ◌++◌, Option, none,
  some, ◌==◌, ltb, leb, if◌then◌else◌, Str, bytes, str_eq, is_empty, to_lower, has_prefix,
  has_suffix, contains_byte, last_index_byte, take, drop, length, any, map, get_elem?,
}
use l7rp.Http.{Header, values}

pub record HeaderPredicate : Type 0 where
  pub name : Str
  pub value : Str

pub record Route : Type 0 where
  pub name : Str
  pub host_pattern : Str
  pub path_prefix : Str
  pub header_predicates : List HeaderPredicate
  pub handler : ℕ

pub record RouteMatch : Type 0 where
  pub route : Route
  pub path_tail : Str
  pub host : Str

-- What Match reads of a request: Host, URL.EscapedPath() and Header.
pub record Request : Type 0 where
  pub host : Str
  pub escaped_path : Str
  pub header : Header

pub record Router : Type 0 where
  pub host_exact : List (Str × List Route)
  pub host_wildcards : List (Str × List Route)

-- The order of sortRoutes: `comes_first a b` is `less(a, b)`.
unfoldable pub comes_first : Route → Route → Bool
comes_first a b =
    if length a.path_prefix == length b.path_prefix
    then ltb (length b.header_predicates) (length a.header_predicates)
    else ltb (length b.path_prefix) (length a.path_prefix)

-- sort.SliceStable, as a stable insertion sort.
unfoldable pub insert_route : Route → List Route → List Route
insert_route r [] = r ∷ []
insert_route r (s ∷ rest) = if comes_first s r then s ∷ insert_route r rest else r ∷ s ∷ rest

unfoldable pub sort_routes : List Route → List Route
unfolding insert_route
sort_routes [] = []
sort_routes (r ∷ routes) = insert_route r (sort_routes routes)

-- `m[key] = append(m[key], route)`.
unfoldable pub append_at : Str → Route → List (Str × List Route) → List (Str × List Route)
append_at key r [] = (key, r ∷ []) ∷ []
append_at key r ((k, rs) ∷ m) =
    if str_eq k key then (k, rs ++ r ∷ []) ∷ m else (k, rs) ∷ append_at key r m

abbrev pub is_wildcard : Str → Bool
is_wildcard host = has_prefix host (bytes "*.")

-- The first loop of NewRouter.
unfoldable pub index_routes : List Route → Router → Router
unfolding append_at
index_routes [] t = t
index_routes (r ∷ routes) t =
    let host = to_lower r.host_pattern in
    index_routes routes (
      if is_wildcard host
      then record t { host_wildcards = append_at (drop 1 host) r t.host_wildcards }
      else record t { host_exact = append_at host r t.host_exact })

abbrev pub sort_buckets : List (Str × List Route) → List (Str × List Route)
sort_buckets = map (λ e. (e.0, sort_routes e.1))

-- sort.Slice by falling length of the suffix.
unfoldable pub insert_wildcard :
    Str × List Route → List (Str × List Route) → List (Str × List Route)
insert_wildcard e [] = e ∷ []
insert_wildcard e (f ∷ rest) =
    if ltb (length e.0) (length f.0) then f ∷ insert_wildcard e rest else e ∷ f ∷ rest

unfoldable pub sort_wildcards : List (Str × List Route) → List (Str × List Route)
unfolding insert_wildcard
sort_wildcards [] = []
sort_wildcards (e ∷ m) = insert_wildcard e (sort_wildcards m)

-- NewRouter behind its call of validate.
unfoldable pub build_router : List Route → Router
unfolding index_routes sort_routes sort_wildcards
build_router routes =
    let t = index_routes routes (record { host_exact = []; host_wildcards = [] }) in
    record {
      host_exact = sort_buckets t.host_exact;
      host_wildcards = sort_wildcards (sort_buckets t.host_wildcards);
    }

unfoldable pub matches_wildcard : Str → Str → Bool
matches_wildcard host suffix =
    let prefix = take (length host - length suffix) host in
    has_suffix host suffix && not (is_empty prefix) && not (contains_byte 46 prefix)

unfoldable pub path_matches_prefix : Str → Str → Bool
path_matches_prefix path prefix =
    if has_suffix prefix (bytes "/")
    then has_prefix path prefix
    else if str_eq path prefix
    then true
    else ltb (length prefix) (length path)
      && has_prefix path prefix
      && (elim (get_elem? path (length prefix)) [ some c ↦ c == 47 | none ↦ false ])

abbrev pub trim_prefix : Str → Str → Str
trim_prefix s prefix = if has_prefix s prefix then drop (length prefix) s else s

unfoldable pub strip_prefix : Str → Str → Str
strip_prefix path prefix =
    let tail = trim_prefix path prefix in
    if has_suffix prefix (bytes "/")
    then bytes "/" ++ tail
    else if is_empty tail
    then bytes "/"
    else tail

unfoldable pub predicates_match : List HeaderPredicate → Header → Bool
predicates_match [] h = true
predicates_match (p ∷ predicates) h =
    if any (λ v. str_eq v p.value) (values p.name h) then predicates_match predicates h else false

abbrev pub accepts : Request → Str → Route → Bool
accepts req path r =
    path_matches_prefix path r.path_prefix && predicates_match r.header_predicates req.header

unfoldable pub match_in_bucket : List Route → Request → (path host : Str) → Option RouteMatch
unfolding strip_prefix
match_in_bucket [] req path host = none
match_in_bucket (r ∷ routes) req path host =
    if accepts req path r
    then some (record { route = r; path_tail = strip_prefix path r.path_prefix; host = host })
    else match_in_bucket routes req path host

unfoldable pub canonicalize_host : Str → Str
canonicalize_host h =
    let host = to_lower h in elim (last_index_byte 58 host) [ some i ↦ take i host | none ↦ host ]

-- A map read; the empty bucket, in which nothing matches, for a missing key.
unfoldable pub bucket : Str → List (Str × List Route) → List Route
bucket host [] = []
bucket host ((k, rs) ∷ m) = if str_eq k host then rs else bucket host m

unfoldable pub match_wildcards :
    List (Str × List Route) → Request → (path host : Str) → Option RouteMatch
unfolding matches_wildcard match_in_bucket
match_wildcards [] req path host = none
match_wildcards ((suffix, rs) ∷ m) req path host =
    let found : Option RouteMatch =
      if matches_wildcard host suffix then match_in_bucket rs req path host else none in
    elim found [ some x ↦ some x | none ↦ match_wildcards m req path host ]

unfoldable pub match : Router → Request → Option RouteMatch
unfolding canonicalize_host bucket match_in_bucket match_wildcards
match t req =
    let host = canonicalize_host req.host in
    let path : Str = if is_empty req.escaped_path then bytes "/" else req.escaped_path in
    elim (match_in_bucket (bucket host t.host_exact) req path host) [
      | some x ↦ some x
      | none ↦ match_wildcards t.host_wildcards req path host
    ]
