-- ===== src/Upstream/WebSocket/Upgrade.antt =====
-- internal/upstream/websocket.go behind internal/middleware/headers.go: upgrades on a route that
-- transforms headers.
use l7rp.Base.{
  ◌≡◌, refl, ◌∙◌, Bool, true, false, not, List, [], ◌∷◌, arith, if◌then◌else◌, Bool-cases, inl, inr,
  Str, bytes, any, ℕ, is_empty, ◌++◌,
}
use l7rp.Http.{Header, values, get, set, canonical_key}
use l7rp.Http.Laws.{same_name, values-set}
use l7rp.Middleware.Headers.{
  HeaderTransformConfig, Request, del_all, strip_hop_by_hop_headers, set_all, set_absent,
  set_forwarded_headers, transform_request, valid_header_value,
}
use l7rp.Middleware.Headers.Stripping.{values-del_all, values-strip_hop_by_hop_headers}
use l7rp.Middleware.ClientIp.{client_ip_with_trust}
use l7rp.Upstream.WebSocket.{is_web_socket_upgrade}

abbrev connection : Str
connection = bytes "Connection"

values-set_all :
    (added : List (Str × Str)) (n : Str) (h : Header)
    → any (λ e. same_name e.0 n) added ≡ false
    → values n (set_all added h) ≡ values n h
unfolding set_all
values-set_all [] n h e = refl
values-set_all ((m, v) ∷ added) n h e = ground (
  arith,
  values-set_all added n (if valid_header_value v then set m v h else h),
  values-set m n v h,
)

values-set_absent :
    (wanted : Bool) (m n v : Str) (h : Header)
    → same_name m n ≡ false
    → values n (set_absent wanted m v h) ≡ values n h
values-set_absent wanted m n v h e = ground (arith, values-set m n v h)

-- The forwarded headers are set behind, and Connection is none of them.
connection-set_forwarded_headers :
    (hops : ℕ) (r : Request)
    → values connection (set_forwarded_headers hops r).header ≡ values connection r.header
unfolding set_forwarded_headers canonical_key
connection-set_forwarded_headers hops r =
    let existing = get (bytes "X-Forwarded-For") r.header in
    let ip = client_ip_with_trust hops existing r.remote_addr in
    let chain : Str = if is_empty existing then ip else existing ++ 44 ∷ 32 ∷ ip in
    let h0 = set (bytes "X-Forwarded-For") chain r.header in
    let h1 = set_absent true (bytes "X-Real-IP") ip h0 in
    let h2 = set_absent (not (is_empty r.host)) (bytes "X-Forwarded-Host") r.host h1 in
    let proto : Str = if r.tls then bytes "https" else bytes "http" in
    elim (Bool-cases (is_empty ip)) [
      | inl e ↦ rw (set_forwarded_headers, e)
      | inr e ↦
          rw (set_forwarded_headers, e)
            (values-set (bytes "X-Forwarded-Proto") connection proto h2
              ∙ values-set_absent (not (is_empty r.host)) (bytes "X-Forwarded-Host") connection
                  r.host h1 refl
              ∙ values-set_absent true (bytes "X-Real-IP") connection ip h0 refl
              ∙ values-set (bytes "X-Forwarded-For") connection chain r.header)
    ]

connection-strip : (h : Header) → values connection (strip_hop_by_hop_headers h) ≡ []
unfolding canonical_key
connection-strip h = values-strip_hop_by_hop_headers connection h

connection-transform_request :
    (cfg : HeaderTransformConfig) (r : Request)
    → any (λ e. same_name e.0 connection) cfg.add_request ≡ false
    → values connection (transform_request cfg r).header ≡ []
unfolding transform_request
connection-transform_request cfg r e =
    let stripped = strip_hop_by_hop_headers r.header in
    let header = set_all cfg.add_request (del_all cfg.remove_request stripped) in
    let gone : values connection header ≡ [] =
      values-set_all cfg.add_request connection (del_all cfg.remove_request stripped) e
      ∙ values-del_all cfg.remove_request connection stripped
      ∙ rw (connection-strip r.header) (ground arith) in
    elim (Bool-cases cfg.disable_forwarded_for) [
      | inl d ↦ rw (transform_request, d) gone
      | inr d ↦
          rw (transform_request, d)
            (connection-set_forwarded_headers cfg.trust_proxy_hops (record r { header = header })
              ∙ gone)
    ]

-- Behind the header transform no request is taken for an upgrade, unless the route adds a
-- Connection header of its own.
pub transform_request-upgrade :
    (cfg : HeaderTransformConfig) (r : Request) (method : Str)
    → any (λ e. same_name e.0 (bytes "Connection")) cfg.add_request ≡ false
    → is_web_socket_upgrade method (transform_request cfg r).header ≡ false
unfolding is_web_socket_upgrade get
transform_request-upgrade cfg r method e =
    rw (is_web_socket_upgrade, get, connection-transform_request cfg r e) (ground arith)
