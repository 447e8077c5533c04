-- ===== src/Middleware/Headers/Examples.antt =====
-- A request that came through a proxy, with a Connection header that lists one of its headers.
use l7rp.Base.{◌≡◌, refl, true, false, [], ◌∷◌, Str, bytes}
use l7rp.Http.{canonical_key, get, values}
use l7rp.Middleware.ClientIp.{client_ip_with_trust}
use l7rp.Middleware.Headers.{
  Request, HeaderTransformConfig, set_forwarded_headers, transform_request,
}
use l7rp.Middleware.Headers.Forwarded.{c_ip, IsEntry, forwarded-read}
use l7rp.Upstream.WebSocket.{is_web_socket_upgrade}
use l7rp.Upstream.WebSocket.Upgrade.{transform_request-upgrade}

abbrev request : Request
request = record {
  header =
      (bytes "X-Forwarded-For", bytes "198.51.100.7" ∷ [])
      ∷ (bytes "Connection", bytes "Upgrade, X-Token" ∷ [])
      ∷ (bytes "Upgrade", bytes "websocket" ∷ [])
      ∷ (bytes "X-Token", bytes "secret" ∷ [])
      ∷ (bytes "Accept", bytes "*/*" ∷ [])
      ∷ [];
  remote_addr = bytes "203.0.113.9:4711";
  host = bytes "example.com";
  tls = true;
}

abbrev peer : Str
peer = bytes "203.0.113.9"

c_ip-request : c_ip 0 request ≡ peer
unfolding get client_ip_with_trust
c_ip-request = refl

entry : IsEntry (c_ip 0 request)
unfolding get client_ip_with_trust
entry = record { not_empty = λ e. cc; no_comma = refl; trimmed = refl; trimmed_behind = refl }

forwarded-read_example :
    client_ip_with_trust 1
      (get (bytes "X-Forwarded-For") (set_forwarded_headers 0 request).header)
      (bytes "10.0.0.2:80")
    ≡ c_ip 0 request
forwarded-read_example = forwarded-read 0 request (bytes "10.0.0.2:80") entry

abbrev transform : HeaderTransformConfig
transform = record {
  add_request = (bytes "X-Edge", bytes "1") ∷ [];
  remove_request = [];
  add_response = [];
  remove_response = [];
  disable_forwarded_for = false;
  trust_proxy_hops = 0;
}

before : is_web_socket_upgrade (bytes "GET") request.header ≡ true
unfolding is_web_socket_upgrade get values
before = refl

transform_request-upgrade_example :
    is_web_socket_upgrade (bytes "GET") (transform_request transform request).header ≡ false
unfolding canonical_key
transform_request-upgrade_example = transform_request-upgrade transform request (bytes "GET") refl
