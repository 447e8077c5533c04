-- ===== src/Config/Validate/Meaning.antt =====
-- internal/config/config.go: what a configuration that Validate accepts is.
use l7rp.Base.{◌≡◌, ◌≢◌, true, false, List, [], ◌∷◌, map, Str, bytes, is_empty, All, any, all}
use l7rp.Config.{
  TcpListenerConfig, TcpUpstreamConfig, TcpPoolConfig, ListenerConfig, PoolConfig, RouteConfig,
  Config,
}
use l7rp.Config.Validate.{
  seen, is_negative, tls_version_ok, is_some, known_algorithms, interval_ok, mtls_ok,
  splits_host_port, Key, key_eq, header_ok, route_key,
}

-- No two elements have the same key, and none has a key among those given.
abbrev pub IsApart : {A : Type 0} → (A → Str) → List Str → List A → Type 0
IsApart key names [] = Unit
IsApart key names (x ∷ xs) = (seen names (key x) ≡ false) × IsApart key (key x ∷ names) xs

abbrev pub IsListener : ListenerConfig → Type 0
IsListener l = (tls_version_ok l.tls ≡ true) × (l.enable_http3 ≡ true → is_some l.tls ≡ true)

abbrev pub IsPool : {F : Type 0} → PoolConfig F → Type 0
IsPool p =
    (seen known_algorithms p.selector.algorithm ≡ true)
    × (p.selector.algorithm ≡ bytes "consistent-hash-bounded"
        → is_empty p.selector.hash_key ≡ false)
    × (is_some p.health.passive ≡ true → is_some p.health.active ≡ true)
    × (interval_ok p.health.active ≡ true)
    × (is_negative p.connect_timeout ≡ false)
    × (mtls_ok p.upstream_tls ≡ true)

abbrev pub IsAddress : TcpUpstreamConfig → Type 0
IsAddress u = (is_empty u.address ≡ false) × (splits_host_port u.address ≡ true)

abbrev pub IsTcpPool : {F : Type 0} → TcpPoolConfig F → Type 0
IsTcpPool p =
    (is_empty p.name ≡ false)
    × (p.upstreams ≢ [])
    × All IsAddress p.upstreams
    × (is_negative p.connect_timeout ≡ false)

abbrev pub IsTcpListener : List Str → TcpListenerConfig → Type 0
IsTcpListener pools l =
    (is_empty l.name ≡ false) × (is_empty l.bind ≡ false) × (seen pools l.pool ≡ true)

module _ {F : Type 0} where
  -- No two routes have the same host, path prefix and set of predicates, as route_key tells them.
  abbrev pub IsUnambiguous : List Key → List (RouteConfig F) → Type 0
  IsUnambiguous keys [] = Unit
  IsUnambiguous keys (r ∷ rs) =
      (any (key_eq (route_key r)) keys ≡ false) × IsUnambiguous (route_key r ∷ keys) rs

  abbrev pub IsRoute : List Str → RouteConfig F → Type 0
  IsRoute pools r =
      (seen pools r.pool ≡ true)
      × (all header_ok r.middleware ≡ true)
      × (is_negative r.timeouts.total ≡ false)

  -- What the rest of the program may rely on.
  pub record IsValid (c : Config F) : Type 0 where
    pub listener_binds : IsApart (λ l. l.bind) [] c.listeners
    pub listeners : All IsListener c.listeners
    pub pool_names : IsApart (λ p. p.name) [] c.pools
    pub pools : All IsPool c.pools
    pub tcp_pool_names : IsApart (λ p. p.name) [] c.tcp_pools
    pub tcp_pools : All IsTcpPool c.tcp_pools
    pub tcp_binds : IsApart (λ l. l.bind) [] c.tcp_listeners
    pub tcp_listeners : All (IsTcpListener (map (λ p. p.name) c.tcp_pools)) c.tcp_listeners
    pub routes_apart : IsUnambiguous [] c.routes
    pub routes : All (IsRoute (map (λ p. p.name) c.pools)) c.routes
