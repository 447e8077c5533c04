-- ===== src/Runtime/Reload/Examples.antt =====
-- A runtime with one monitored pool, and a reload to a URL that does not parse.
use l7rp.Base.{
  ◌-◌, ℕ, ◌≡◌, refl, Bool, true, List, [], ◌∷◌, ◌++◌, Option, none, some, ◌==◌, if◌then◌else◌, Has,
  Str, bytes, str_eq,
}
use l7rp.Base.Int.{pos}
use l7rp.Base.Ratio.{ratio}
use l7rp.Config.{Config, ListenerConfig, PoolConfig, UpstreamConfig, UpstreamTlsConfig}
use l7rp.Config.Manager.{load, ok}
use l7rp.Config.Validate.{
  validate, validate_listeners, validate_pools, validate_tcp_pools, validate_tcp_listeners,
  validate_routes, seen,
}
use l7rp.Runtime.Settings.{round_robin}
use l7rp.Runtime.Upstreams.{fresh}
use l7rp.Runtime.Pools.{RuntimePool}
use l7rp.Runtime.Reload.{Runtime, opened, pool_failed, reload_config}
use l7rp.Runtime.Reload.Failure.{SameService, Lost, reload_config-failed, reload_config-pool_failed}

abbrev config_with : Str → Config ratio.F
config_with url = record {
  listeners = [];
  pools =
      record {
        name = bytes "app";
        selector = record {
          algorithm = bytes "round-robin";
          ewma_half_life = pos 0;
          hash_key = [];
          epsilon = (0, 1);
          virtual_nodes = pos 0;
        };
        upstreams = record { url = url; weight = pos 0 } ∷ [];
        health = record {
          active = some (record {
            path = bytes "/";
            method = bytes "GET";
            interval = pos 10;
            timeout = pos 1;
            healthy_threshold = pos 1;
            unhealthy_threshold = pos 1;
            expected_status = [];
          });
          passive = none;
        };
        connect_timeout = pos 0;
        upstream_tls = none;
      }
      ∷ [];
  routes = [];
  tcp_listeners = [];
  tcp_pools = [];
}

abbrev decode : Str → Option (Config ratio.F)
decode text = some (config_with text)

abbrev parse : Str → Option Str
parse s = if str_eq s (bytes ":") then none else some s

abbrev not_positive : ratio.F → Bool
not_positive q = q.0 == 0

abbrev pool : RuntimePool ratio.F
pool = record {
  name = bytes "app";
  upstreams = 1 ∷ [];
  selector = round_robin;
  connect_timeout = 5000000000;
  monitor = some 7;
}

abbrev running : Runtime ratio.F
running = record {
  listeners = record { table = []; serving = [] };
  next_listener = 0;
  bound = [];
  pools = (bytes "app", pool) ∷ [];
  cfg = config_with (bytes "http://a");
  router = record { host_exact = []; host_wildcards = [] };
  handlers = [];
  process = record {
    heap = record { upstreams = fresh 1 (bytes "http://a") 1 ∷ []; next = 2 };
    running = 7 ∷ [];
    next_monitor = 8;
  };
}

abbrev tls_loads : UpstreamTlsConfig → Bool
tls_loads t = true

abbrev urls : List UpstreamConfig → Str
urls [] = []
urls (u ∷ us) = u.url ++ urls us

-- Enough to tell these configurations apart.
abbrev pools_equal : PoolConfig ratio.F → PoolConfig ratio.F → Bool
pools_equal p q = str_eq (urls p.upstreams) (urls q.upstreams)

abbrev listeners_equal : ListenerConfig → ListenerConfig → Bool
listeners_equal a b = str_eq a.bind b.bind

abbrev opens : ℕ → ListenerConfig → Bool
opens n lc = true

unparsed :
    (reload_config ratio not_positive parse tls_loads pools_equal decode listeners_equal opens
      (bytes ":")
      running).1
    ≡ some pool_failed
unfolding reload_config load validate validate_listeners validate_pools validate_tcp_pools
    validate_tcp_listeners validate_routes seen
unparsed = refl

reload_config-failed_example :
    let behind =
      (reload_config ratio not_positive parse tls_loads pools_equal decode listeners_equal opens
        (bytes ":")
        running).0 in
    SameService running behind × (behind.bound ≡ [] ++ opened 0 (behind.next_listener - 0))
reload_config-failed_example =
    reload_config-failed ratio not_positive parse tls_loads pools_equal decode listeners_equal opens
      (bytes ":") running pool_failed unparsed

reload_config-pool_failed_example :
    (cfg : Config ratio.F) × (load decode (bytes ":") ≡ ok cfg)
    × Has
        (Lost ratio not_positive parse tls_loads pools_equal running.pools running.cfg.pools
          (reload_config ratio not_positive parse tls_loads pools_equal decode listeners_equal opens
            (bytes ":")
            running).0.process.running)
        cfg.pools
reload_config-pool_failed_example =
    reload_config-pool_failed ratio not_positive parse tls_loads pools_equal decode listeners_equal
      opens (bytes ":") running unparsed

-- A reload to another URL succeeds.
renewed :
    (reload_config ratio not_positive parse tls_loads pools_equal decode listeners_equal opens
      (bytes "http://b")
      running).1
    ≡ none
unfolding reload_config load validate validate_listeners validate_pools validate_tcp_pools
    validate_tcp_listeners validate_routes seen
renewed = refl
