-- ===== src/Runtime/Settings.antt =====
-- cmd/l7rp/main.go: what the settings of a configuration become. `F` is float64, and `not_positive`
-- its test `<= 0`. An int or a duration may be negative here, as in the configuration.
pub mod Order
pub mod Algorithms
mod Examples
use l7rp.Base.{
  ℕ, zero, suc, ◌+◌, ◌*◌, Bool, true, false, ◌||◌, not, List, [], ◌∷◌, ◌++◌, Option, none, some,
  ◌==◌, if◌then◌else◌, Str, bytes, str_eq, is_empty, has_prefix, drop, length, Float64,
}
use l7rp.Base.Int.{ℤ, pos, negsuc}
use l7rp.Config.{
  SelectorConfig, RouteConfig, MiddlewareConfig, CompressConfig, RateLimitConfig, RetryConfig,
  HeaderTransformConfig,
}
use l7rp.Health.{setting}
use l7rp.Middleware.Headers

abbrev pub second : ℕ
second = 1000000000

pub data HashKey : Type 0 where
  client_ip_key : HashKey
  header_key cookie_key : Str → HashKey

unfoldable pub parse_hash_key : Str → HashKey
parse_hash_key spec =
    if str_eq spec (bytes "client_ip") || is_empty spec
    then client_ip_key
    else if has_prefix spec (bytes "header:")
    then header_key (drop 7 spec)
    else if has_prefix spec (bytes "cookie:")
    then cookie_key (drop 7 spec)
    else client_ip_key

-- A selector with its settings.
pub data Algorithm (F : Type 0) : Type 0 where
  round_robin weighted_round_robin least_connections : Algorithm F
  p2c : (half_life : ℕ) → Algorithm F
  consistent_hash_bounded : (virtual_nodes : ℕ) (epsilon : F) → HashKey → Algorithm F

module _ (fl : Float64) (not_positive : fl.F → Bool) where
  -- `none` is the error on an unknown algorithm. 0.25 is 1 / 4.
  unfoldable pub build_selector : SelectorConfig fl.F → Option (Algorithm fl.F)
  unfolding parse_hash_key
  build_selector cfg =
      let algo : Str = if is_empty cfg.algorithm then bytes "p2c-ewma" else cfg.algorithm in
      let epsilon : fl.F =
        if not_positive cfg.epsilon then fl.div (fl.of_int 1) (fl.of_int 4) else cfg.epsilon in
      if str_eq algo (bytes "round-robin")
      then some round_robin
      else if str_eq algo (bytes "weighted-rr")
      then some weighted_round_robin
      else if str_eq algo (bytes "least-conn")
      then some least_connections
      else if str_eq algo (bytes "p2c-ewma")
      then some (p2c (setting cfg.ewma_half_life (5 * second)))
      else if str_eq algo (bytes "consistent-hash-bounded")
      then some (
          consistent_hash_bounded (setting cfg.virtual_nodes 128) epsilon
            (parse_hash_key cfg.hash_key))
      else none

abbrev or_default {ℓ} : {A : Type ℓ} → List A → List A → List A
or_default [] default = default
or_default (x ∷ xs) default = x ∷ xs

-- An int that is 0 stands for its default; a negative one is kept.
abbrev pub unless_zero : ℤ → ℕ → ℤ
unless_zero (pos zero) default = pos default
unless_zero (pos (suc n)) default = pos (suc n)
unless_zero (negsuc n) default = negsuc n

unfoldable pub to_retry_config : {F : Type 0} → RetryConfig F → RetryConfig F
to_retry_config c = record c {
  retry_methods =
      or_default c.retry_methods (bytes "GET" ∷ bytes "HEAD" ∷ bytes "PUT" ∷ bytes "DELETE" ∷ []);
  retry_on = or_default c.retry_on (502 ∷ 503 ∷ 504 ∷ []);
  hedgeable_methods = or_default c.hedgeable_methods (bytes "GET" ∷ bytes "HEAD" ∷ []);
  max_replayable_body = unless_zero c.max_replayable_body (64 * 1024);
  max_attempts = unless_zero c.max_attempts 1;
}

unfoldable pub to_header_transform_config : HeaderTransformConfig → Headers.HeaderTransformConfig
to_header_transform_config c = record {
  add_request = c.add_request;
  remove_request = c.remove_request;
  add_response = c.add_response;
  remove_response = c.remove_response;
  disable_forwarded_for = false;
  trust_proxy_hops = 0;
}

-- The middlewares of a route, from the outermost. Those of the rate limit and the timeout carry
-- what distinguishes them.
pub data Middleware (F : Type 0) : Type 0 where
  request_id panic_recover : Middleware F
  access_log : (route : Str) → Middleware F
  rate_limit : RateLimitConfig → (route : Str) → Middleware F
  timeout : ℕ → Middleware F
  retry : RetryConfig F → Middleware F
  header_transform : Headers.HeaderTransformConfig → Middleware F
  compress : CompressConfig → Middleware F

-- The four variables that the switch fills.
pub record Slots (F : Type 0) : Type 0 where
  pub rate_limit_mw : Option (Middleware F)
  pub retry_mw : Option (Middleware F)
  pub header_mw : Option (Middleware F)
  pub compress_mw : Option (Middleware F)

module _ {F : Type 0} where
  -- One round of the switch: its first case that holds.
  unfoldable pub slot : Str → MiddlewareConfig F → Slots F → Slots F
  unfolding to_retry_config to_header_transform_config
  slot route mw s = elim mw.rate_limit [
    | some c ↦ record s { rate_limit_mw = some (rate_limit c route) }
    | none ↦ elim mw.retry [
      | some c ↦ record s { retry_mw = some (retry (to_retry_config c)) }
      | none ↦ elim mw.header_transform [
        | some c ↦ record s { header_mw = some (header_transform (to_header_transform_config c)) }
        | none ↦ elim mw.compress [
          | some c ↦ record s { compress_mw = some (compress c) }
          | none ↦ s
        ]
      ]
    ]
  ]

  unfoldable pub slots : Str → List (MiddlewareConfig F) → Slots F → Slots F
  unfolding slot
  slots route [] s = s
  slots route (mw ∷ mws) s = slots route mws (slot route mw s)

  abbrev pub listed : Option (Middleware F) → List (Middleware F)
  listed none = []
  listed (some m) = m ∷ []

  abbrev pub total_timeout : ℤ → List (Middleware F)
  total_timeout (pos zero) = []
  total_timeout (pos (suc n)) = timeout (suc n) ∷ []
  total_timeout (negsuc n) = []

  unfoldable pub build_middleware : RouteConfig F → List (Middleware F)
  unfolding slots
  build_middleware rc =
      let s =
        slots rc.name rc.middleware (record {
          rate_limit_mw = none;
          retry_mw = none;
          header_mw = none;
          compress_mw = none;
        }) in
      request_id
      ∷ access_log rc.name
      ∷ panic_recover
      ∷ (listed s.rate_limit_mw
          ++ (total_timeout rc.timeouts.total
              ++ (listed s.retry_mw ++ (listed s.header_mw ++ listed s.compress_mw))))
