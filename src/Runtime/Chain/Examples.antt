-- ===== src/Runtime/Chain/Examples.antt =====
-- A route with nothing but the middlewares that every route has.
use l7rp.Base.{ℕ, ◌≡◌, true, false, [], some, bytes}
use l7rp.Base.Int.{pos}
use l7rp.Config.{RouteConfig}
use l7rp.Runtime.Chain.{proxy_writer, serve_web_socket-proxy_writer}
use l7rp.Upstream.WebSocket.{Events, failed, serve_web_socket}

abbrev route : RouteConfig ℕ
route = record {
  name = bytes "r";
  host = bytes "example.com";
  path_prefix = bytes "/";
  header_predicates = [];
  pool = bytes "app";
  middleware = [];
  timeouts = record { total = pos 0 };
}

abbrev accepted : Events
accepted = record { hijacks = true; dials = true; replays = true; answer = some 101; relays = true }

serve_web_socket-proxy_writer_example :
    serve_web_socket (proxy_writer false route) accepted ≡ failed 500
serve_web_socket-proxy_writer_example = serve_web_socket-proxy_writer false route accepted
