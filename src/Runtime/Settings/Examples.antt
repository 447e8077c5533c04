-- ===== src/Runtime/Settings/Examples.antt =====
-- A route whose entries stand in another order than the middlewares, and a misspelt algorithm.
use l7rp.Base.{◌≡◌, refl, Bool, [], ◌∷◌, none, some, ◌==◌, arith, any, bytes}
use l7rp.Base.Int.{pos}
use l7rp.Base.Ratio.{ratio}
use l7rp.Config.{SelectorConfig, RouteConfig}
use l7rp.Runtime.Settings.{build_middleware}
use l7rp.Runtime.Settings.Order.{place, Rises, is_kind, build_middleware-canonical}

abbrev not_positive : ratio.F → Bool
not_positive q = q.0 == 0

abbrev misspelt : SelectorConfig ratio.F
misspelt = record {
  algorithm = bytes "roundrobin";
  ewma_half_life = pos 0;
  hash_key = [];
  epsilon = (0, 1);
  virtual_nodes = pos 0;
}

abbrev route : RouteConfig ratio.F
route = record {
  name = bytes "r";
  host = bytes "example.com";
  path_prefix = bytes "/";
  header_predicates = [];
  pool = bytes "app";
  middleware =
      record {
        rate_limit = none;
        retry = none;
        header_transform = none;
        compress = some (record { min_bytes = pos 0; skip_content_types = [] });
      }
      ∷ record {
        rate_limit =
            some (record {
              scope = [];
              per_ip_rps = pos 10;
              burst = pos 20;
              trust_proxy_hops = pos 0;
            });
        retry = none;
        header_transform = none;
        compress = none;
      }
      ∷ [];
  timeouts = record { total = pos 1 };
}

build_middleware-canonical_example :
    Rises 0 (build_middleware route)
    × (any (λ m. place m == 7) (build_middleware route) ≡ any (is_kind 7) route.middleware)
build_middleware-canonical_example = build_middleware-canonical route 7 (omega arith) refl
