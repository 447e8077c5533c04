-- ===== src/Config/Validate.antt =====
-- internal/config/config.go: Validate. A function returns `none` for nil. An error is the index or
-- indices of its YAML path with the rule that is broken; the texts are not modelled. A map that
-- only tells what was seen is the list of its keys.
pub mod Meaning
use l7rp.Base.{
  ℕ, zero, suc, ◌+◌, Bool, true, false, ◌&&◌, ◌||◌, not, List, [], ◌∷◌, ◌++◌, Option, none, some,
  ◌==◌, ltb, if◌then◌else◌, Str, bytes, str_eq, is_empty, to_lower, contains_byte, last_index_byte,
  any, all, map, take, drop, length, has_prefix, ◌-◌,
}
use l7rp.Base.Int.{ℤ, pos, negsuc, ltb_ℤ}
use l7rp.Config.{
  TcpListenerConfig, TcpUpstreamConfig, TcpPoolConfig, TlsConfig, ListenerConfig, PoolConfig,
  ActiveHealthConfig, PassiveHealthConfig, UpstreamTlsConfig, HeaderPredicateConfig, RouteConfig,
  MiddlewareConfig, HeaderTransformConfig, Config,
}

pub data ValidationError : Type 0 where
  listener_bind_used tls_min_version http3_without_tls : ℕ → ValidationError
  pool_name_used unknown_algorithm hash_key_missing passive_without_active : ℕ → ValidationError
  interval_too_short pool_connect_timeout mtls_incomplete : ℕ → ValidationError
  tcp_pool_name_missing tcp_pool_name_used tcp_upstreams_missing : ℕ → ValidationError
  tcp_address_missing tcp_address_invalid : ℕ → ℕ → ValidationError
  tcp_pool_connect_timeout : ℕ → ValidationError
  tcp_listener_name_missing tcp_bind_missing tcp_bind_used tcp_pool_unknown : ℕ → ValidationError
  route_pool_unknown route_duplicate crlf_in_header route_timeout : ℕ → ValidationError

unfoldable pub seen : List Str → Str → Bool
seen names s = any (λ n. str_eq n s) names

abbrev pub is_negative : ℤ → Bool
is_negative (pos n) = false
is_negative (negsuc n) = true

abbrev pub is_positive : ℤ → Bool
is_positive z = ltb_ℤ (pos 0) z

unfoldable pub valid_tls_version : Str → Bool
valid_tls_version v = str_eq v (bytes "1.2") || str_eq v (bytes "1.3")

abbrev pub tls_version_ok : Option TlsConfig → Bool
tls_version_ok none = true
tls_version_ok (some t) = is_empty t.min_version || valid_tls_version t.min_version

abbrev pub is_some {ℓ} : {A : Type ℓ} → Option A → Bool
is_some none = false
is_some (some a) = true

unfoldable pub validate_listeners : List Str → ℕ → List ListenerConfig → Option ValidationError
validate_listeners binds i [] = none
validate_listeners binds i (l ∷ ls) =
    let rest = validate_listeners (l.bind ∷ binds) (i + 1) ls in
    if seen binds l.bind
    then some (listener_bind_used i)
    else if not (tls_version_ok l.tls)
    then some (tls_min_version i)
    else if l.enable_http3 && not (is_some l.tls)
    then some (http3_without_tls i)
    else rest

abbrev pub known_algorithms : List Str
known_algorithms =
    bytes ""
    ∷ bytes "round-robin"
    ∷ bytes "weighted-rr"
    ∷ bytes "least-conn"
    ∷ bytes "p2c-ewma"
    ∷ bytes "consistent-hash-bounded"
    ∷ []

abbrev pub interval_ok : Option ActiveHealthConfig → Bool
interval_ok none = true
interval_ok (some a) =
    not (is_positive a.interval && is_positive a.timeout && not (ltb_ℤ a.timeout a.interval))

abbrev pub mtls_ok : Option UpstreamTlsConfig → Bool
mtls_ok none = true
mtls_ok (some t) =
    if is_empty t.client_cert_file
    then is_empty t.client_key_file
    else not (is_empty t.client_key_file)

module _ {F : Type 0} where
  unfoldable pub validate_pools : List Str → ℕ → List (PoolConfig F) → Option ValidationError
  validate_pools names i [] = none
  validate_pools names i (p ∷ ps) =
      let rest = validate_pools (p.name ∷ names) (i + 1) ps in
      if seen names p.name
      then some (pool_name_used i)
      else if not (seen known_algorithms p.selector.algorithm)
      then some (unknown_algorithm i)
      else if str_eq p.selector.algorithm (bytes "consistent-hash-bounded")
          && is_empty p.selector.hash_key
      then some (hash_key_missing i)
      else if is_some p.health.passive && not (is_some p.health.active)
      then some (passive_without_active i)
      else if not (interval_ok p.health.active)
      then some (interval_too_short i)
      else if is_negative p.connect_timeout
      then some (pool_connect_timeout i)
      else if not (mtls_ok p.upstream_tls)
      then some (mtls_incomplete i)
      else rest

-- A text that starts with `[`: its first `]` must stand right before the last colon.
unfoldable pub bracketed : Str → ℕ → Bool
bracketed t i =
    contains_byte 93 t
    && not (contains_byte 93 (take (i - 1) t))
    && not (contains_byte 91 (drop 1 t))
    && not (contains_byte 93 (drop i t))

-- net.SplitHostPort returns no error.
unfoldable pub splits_host_port : Str → Bool
unfolding bracketed
splits_host_port s = elim (last_index_byte 58 s) [
  | none ↦ false
  | some i ↦
      if has_prefix s (91 ∷ [])
      then bracketed s i
      else not (contains_byte 58 (take i s)) && not (contains_byte 91 s) && not (contains_byte 93 s)
]

unfoldable pub validate_addresses : ℕ → ℕ → List TcpUpstreamConfig → Option ValidationError
validate_addresses i j [] = none
validate_addresses i j (u ∷ us) =
    let rest = validate_addresses i (j + 1) us in
    if is_empty u.address
    then some (tcp_address_missing i j)
    else if not (splits_host_port u.address)
    then some (tcp_address_invalid i j)
    else rest

-- `a`, or `b` where `a` is nil.
abbrev pub or_else : Option ValidationError → Option ValidationError → Option ValidationError
or_else none b = b
or_else (some e) b = some e

module _ {F : Type 0} where
  -- The first loop of validateTCP.
  unfoldable pub validate_tcp_pools : List Str → ℕ → List (TcpPoolConfig F) → Option ValidationError
  validate_tcp_pools names i [] = none
  validate_tcp_pools names i (p ∷ ps) =
      let rest = validate_tcp_pools (p.name ∷ names) (i + 1) ps in
      if is_empty p.name
      then some (tcp_pool_name_missing i)
      else if seen names p.name
      then some (tcp_pool_name_used i)
      else if length p.upstreams == 0
      then some (tcp_upstreams_missing i)
      else or_else (validate_addresses i 0 p.upstreams)
          (if is_negative p.connect_timeout then some (tcp_pool_connect_timeout i) else rest)

-- Its second loop.
unfoldable pub validate_tcp_listeners :
    List Str → List Str → ℕ → List TcpListenerConfig → Option ValidationError
validate_tcp_listeners pools binds i [] = none
validate_tcp_listeners pools binds i (l ∷ ls) =
    let rest = validate_tcp_listeners pools (l.bind ∷ binds) (i + 1) ls in
    if is_empty l.name
    then some (tcp_listener_name_missing i)
    else if is_empty l.bind
    then some (tcp_bind_missing i)
    else if seen binds l.bind
    then some (tcp_bind_used i)
    else if not (seen pools l.pool)
    then some (tcp_pool_unknown i)
    else rest

-- The order of Go's strings, and the sort by insertion of predicatesKey: its inner loop moves a part
-- down past all that are greater.
unfoldable pub str_lt : Str → Str → Bool
str_lt [] [] = false
str_lt [] (y ∷ t) = true
str_lt (x ∷ s) [] = false
str_lt (x ∷ s) (y ∷ t) = ltb x y || x == y && str_lt s t

unfoldable pub insert_last : Str → List Str → List Str
insert_last p [] = p ∷ []
insert_last p (q ∷ qs) = if str_lt p q then p ∷ q ∷ qs else q ∷ insert_last p qs

unfoldable pub sort_parts : List Str → List Str → List Str
unfolding insert_last
sort_parts done [] = done
sort_parts done (p ∷ ps) = sort_parts (insert_last p done) ps

abbrev pub join : Str → List Str → Str
join sep [] = []
join sep (p ∷ []) = p
join sep (p ∷ q ∷ ps) = p ++ sep ++ join sep (q ∷ ps)

unfoldable pub predicates_key : List HeaderPredicateConfig → Str
unfolding sort_parts
predicates_key ps =
    join (bytes ";") (sort_parts [] (map (λ p. to_lower p.name ++ bytes "=" ++ p.value) ps))

abbrev pub has_crlf : Str → Bool
has_crlf v = any (λ c. c == 13 || c == 10) v

-- scanHeaderValues returns no error.
unfoldable pub scan_header_values : HeaderTransformConfig → Bool
scan_header_values h =
    not (any (λ (e : Str × Str). has_crlf e.1) h.add_request)
    && not (any (λ (e : Str × Str). has_crlf e.1) h.add_response)

pub record Key : Type 0 where
  pub host : Str
  pub prefix : Str
  pub preds : Str

abbrev pub key_eq : Key → Key → Bool
key_eq a b = str_eq a.host b.host && str_eq a.prefix b.prefix && str_eq a.preds b.preds

module _ {F : Type 0} where
  abbrev pub header_ok : MiddlewareConfig F → Bool
  header_ok m = elim (m.header_transform) [ none ↦ true | some h ↦ scan_header_values h ]

  unfoldable pub route_key : RouteConfig F → Key
  unfolding predicates_key
  route_key r = record {
    host = to_lower r.host;
    prefix = r.path_prefix;
    preds = predicates_key r.header_predicates;
  }

  unfoldable pub validate_routes :
      List Str → List Key → ℕ → List (RouteConfig F) → Option ValidationError
  validate_routes pools keys i [] = none
  validate_routes pools keys i (r ∷ rs) =
      let k = route_key r in
      let rest = validate_routes pools (k ∷ keys) (i + 1) rs in
      if not (seen pools r.pool)
      then some (route_pool_unknown i)
      else if any (key_eq k) keys
      then some (route_duplicate i)
      else if not (all header_ok r.middleware)
      then some (crlf_in_header i)
      else if is_negative r.timeouts.total
      then some (route_timeout i)
      else rest

  unfoldable pub validate : Config F → Option ValidationError
  unfolding validate_listeners validate_pools validate_tcp_pools validate_tcp_listeners
      validate_routes
  validate c = or_else (validate_listeners [] 0 c.listeners) (
      or_else (validate_pools [] 0 c.pools) (
        or_else (validate_tcp_pools [] 0 c.tcp_pools) (
          or_else (validate_tcp_listeners (map (λ p. p.name) c.tcp_pools) [] 0 c.tcp_listeners)
            (validate_routes (map (λ p. p.name) c.pools) [] 0 c.routes))))
