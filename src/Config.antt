-- ===== src/Config.antt =====
-- internal/config/config.go: the shape of the configuration. Durations may be negative before they
-- are validated. `F` is float64; a map of headers is an association list.
pub mod Validate
pub mod Manager
mod Examples
use l7rp.Base.{ℕ, Bool, List, Option, Str}
use l7rp.Base.Int.{ℤ}

pub record TcpListenerConfig : Type 0 where
  pub name : Str
  pub bind : Str
  pub pool : Str

pub record SelectorConfig (F : Type 0) : Type 0 where
  pub algorithm : Str
  pub ewma_half_life : ℤ
  pub hash_key : Str
  pub epsilon : F
  pub virtual_nodes : ℤ

pub record TcpUpstreamConfig : Type 0 where
  pub address : Str
  pub weight : ℤ

pub record TcpPoolConfig (F : Type 0) : Type 0 where
  pub name : Str
  pub selector : SelectorConfig F
  pub upstreams : List TcpUpstreamConfig
  pub connect_timeout : ℤ

pub record TlsCert : Type 0 where
  pub cert : Str
  pub key : Str
  pub hosts : List Str

pub record AutocertConfig : Type 0 where
  pub cache_dir : Str
  pub allowed_hosts : List Str
  pub email : Str

pub record TlsConfig : Type 0 where
  pub certs : List TlsCert
  pub min_version : Str
  pub autocert : Option AutocertConfig

pub record ListenerTimeouts : Type 0 where
  pub read_header : ℤ
  pub read : ℤ
  pub write : ℤ
  pub idle : ℤ
  pub max_header_bytes : ℤ

pub record ListenerConfig : Type 0 where
  pub name : Str
  pub bind : Str
  pub tls : Option TlsConfig
  pub timeouts : ListenerTimeouts
  pub enable_http3 : Bool

pub record UpstreamTlsConfig : Type 0 where
  pub ca_file : Str
  pub client_cert_file : Str
  pub client_key_file : Str
  pub server_name : Str
  pub insecure_skip_verify : Bool

pub record UpstreamConfig : Type 0 where
  pub url : Str
  pub weight : ℤ

pub record ActiveHealthConfig : Type 0 where
  pub path : Str
  pub method : Str
  pub interval : ℤ
  pub timeout : ℤ
  pub healthy_threshold : ℤ
  pub unhealthy_threshold : ℤ
  pub expected_status : List ℕ

pub record PassiveHealthConfig (F : Type 0) : Type 0 where
  pub error_threshold : F
  pub latency_p99_threshold : ℤ
  pub half_life : ℤ

pub record HealthConfig (F : Type 0) : Type 0 where
  pub active : Option ActiveHealthConfig
  pub passive : Option (PassiveHealthConfig F)

pub record PoolConfig (F : Type 0) : Type 0 where
  pub name : Str
  pub selector : SelectorConfig F
  pub upstreams : List UpstreamConfig
  pub health : HealthConfig F
  pub connect_timeout : ℤ
  pub upstream_tls : Option UpstreamTlsConfig

pub record HeaderPredicateConfig : Type 0 where
  pub name : Str
  pub value : Str

pub record CompressConfig : Type 0 where
  pub min_bytes : ℤ
  pub skip_content_types : List Str

pub record RateLimitConfig : Type 0 where
  pub scope : Str
  pub per_ip_rps : ℤ
  pub burst : ℤ
  pub trust_proxy_hops : ℤ

pub record RetryConfig (F : Type 0) : Type 0 where
  pub max_attempts : ℤ
  pub retry_methods : List Str
  pub retry_on : List ℕ
  pub hedge_after : ℤ
  pub hedge_after_percentile : F
  pub hedgeable_methods : List Str
  pub max_replayable_body : ℤ

pub record HeaderTransformConfig : Type 0 where
  pub add_request : List (Str × Str)
  pub remove_request : List Str
  pub add_response : List (Str × Str)
  pub remove_response : List Str

pub record MiddlewareConfig (F : Type 0) : Type 0 where
  pub rate_limit : Option RateLimitConfig
  pub retry : Option (RetryConfig F)
  pub header_transform : Option HeaderTransformConfig
  pub compress : Option CompressConfig

pub record RouteTimeouts : Type 0 where
  pub total : ℤ

pub record RouteConfig (F : Type 0) : Type 0 where
  pub name : Str
  pub host : Str
  pub path_prefix : Str
  pub header_predicates : List HeaderPredicateConfig
  pub pool : Str
  pub middleware : List (MiddlewareConfig F)
  pub timeouts : RouteTimeouts

pub record Config (F : Type 0) : Type 0 where
  pub listeners : List ListenerConfig
  pub pools : List (PoolConfig F)
  pub routes : List (RouteConfig F)
  pub tcp_listeners : List TcpListenerConfig
  pub tcp_pools : List (TcpPoolConfig F)
