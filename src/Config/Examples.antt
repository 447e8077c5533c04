-- ===== src/Config/Examples.antt =====
-- A configuration with one listener, one pool and two routes, and reloads of it.
use l7rp.Base.{ℕ, ◌≡◌, refl, false, List, [], ◌∷◌, Option, none, some, Str, bytes}
use l7rp.Base.Int.{pos}
use l7rp.Config.{ListenerConfig, PoolConfig, RouteConfig, HeaderPredicateConfig, Config}
use l7rp.Config.Validate.{
  validate, validate_listeners, validate_pools, validate_tcp_pools, validate_tcp_listeners,
  validate_routes, route_pool_unknown, seen, route_key, predicates_key, sort_parts, insert_last,
  str_lt, scan_header_values,
}

abbrev listener : ListenerConfig
listener = record {
  name = bytes "http";
  bind = bytes ":80";
  tls = none;
  timeouts = record {
    read_header = pos 0;
    read = pos 0;
    write = pos 0;
    idle = pos 0;
    max_header_bytes = pos 0;
  };
  enable_http3 = false;
}

abbrev pool : PoolConfig ℕ
pool = record {
  name = bytes "app";
  selector = record {
    algorithm = bytes "p2c-ewma";
    ewma_half_life = pos 0;
    hash_key = [];
    epsilon = 0;
    virtual_nodes = pos 0;
  };
  upstreams = record { url = bytes "http://10.0.0.1"; weight = pos 1 } ∷ [];
  health = record { active = none; passive = none };
  connect_timeout = pos 0;
  upstream_tls = none;
}

abbrev route_to : Str → List HeaderPredicateConfig → RouteConfig ℕ
route_to name predicates = record {
  name = bytes "r";
  host = bytes "example.com";
  path_prefix = bytes "/";
  header_predicates = predicates;
  pool = name;
  middleware = [];
  timeouts = record { total = pos 0 };
}

abbrev small : Str → Config ℕ
small name = record {
  listeners = listener ∷ [];
  pools = pool ∷ [];
  routes =
      route_to (bytes "app") (record { name = bytes "X-Beta"; value = bytes "1" } ∷ [])
      ∷ route_to name []
      ∷ [];
  tcp_listeners = [];
  tcp_pools = [];
}

-- A decoder that knows two texts.
abbrev decode : Str → Option (Config ℕ)
decode [] = none
decode (c ∷ []) = some (small (bytes "app"))
decode (c ∷ d ∷ s) = some (small (bytes "nowhere"))

small-valid : validate (small (bytes "app")) ≡ none
unfolding validate validate_listeners validate_pools validate_tcp_pools validate_tcp_listeners
    validate_routes seen route_key predicates_key sort_parts insert_last str_lt scan_header_values
small-valid = refl

misrouted : validate (small (bytes "nowhere")) ≡ some (route_pool_unknown 1)
unfolding validate validate_listeners validate_pools validate_tcp_pools validate_tcp_listeners
    validate_routes seen route_key predicates_key sort_parts insert_last str_lt scan_header_values
misrouted = refl
