-- ===== src/Middleware/Headers.antt =====
-- internal/middleware/headers.go: the rewriting of headers. Go ranges over the headers to add in any
-- order, which matters only where two of their names stand for one header; here it is that of the
-- list. `remote_addr`, `host` and `tls` are fields of the request.
pub mod Stripping
pub mod Forwarded
mod Examples
use l7rp.Base.{
  ℕ, Bool, true, false, ◌&&◌, ◌||◌, not, List, [], ◌∷◌, ◌++◌, ◌==◌, if◌then◌else◌, Str, bytes,
  is_empty, any, split, trim_space, map,
}
use l7rp.Http.{Header, get, set, del}
use l7rp.Middleware.ClientIp.{client_ip_with_trust}

pub record HeaderTransformConfig : Type 0 where
  pub add_request : List (Str × Str)
  pub remove_request : List Str
  pub add_response : List (Str × Str)
  pub remove_response : List Str
  pub disable_forwarded_for : Bool
  pub trust_proxy_hops : ℕ

-- What the middleware reads and writes of a request.
pub record Request : Type 0 where
  pub header : Header
  pub remote_addr : Str
  pub host : Str
  pub tls : Bool

abbrev pub hop_by_hop_header_names : List Str
hop_by_hop_header_names =
    bytes "Connection"
    ∷ bytes "Keep-Alive"
    ∷ bytes "Proxy-Authenticate"
    ∷ bytes "Proxy-Authorization"
    ∷ bytes "TE"
    ∷ bytes "Trailer"
    ∷ bytes "Transfer-Encoding"
    ∷ []

-- `for _, name := range names { h.Del(name) }`
unfoldable pub del_all : List Str → Header → Header
del_all [] h = h
del_all (name ∷ names) h = del_all names (del name h)

-- The names that a Connection header lists.
abbrev pub listed : Str → List Str
listed conn = if is_empty conn then [] else map trim_space (split 44 conn)

unfoldable pub strip_hop_by_hop_headers : Header → Header
unfolding del_all
strip_hop_by_hop_headers h =
    del_all hop_by_hop_header_names (del_all (listed (get (bytes "Connection") h)) h)

unfoldable pub valid_header_value : Str → Bool
valid_header_value v = not (any (λ c. c == 13 || c == 10) v)

-- The loop over the headers to add.
unfoldable pub set_all : List (Str × Str) → Header → Header
unfolding valid_header_value
set_all [] h = h
set_all ((name, value) ∷ rest) h =
    set_all rest (if valid_header_value value then set name value h else h)

abbrev pub set_absent : Bool → Str → Str → Header → Header
set_absent wanted name value h = if is_empty (get name h) && wanted then set name value h else h

unfoldable pub set_forwarded_headers : (trust_hops : ℕ) → Request → Request
set_forwarded_headers trust_hops r =
    let existing = get (bytes "X-Forwarded-For") r.header in
    let c_ip = client_ip_with_trust trust_hops existing r.remote_addr in
    let chain = if is_empty existing then c_ip else existing ++ 44 ∷ 32 ∷ c_ip in
    let with_chain = set (bytes "X-Forwarded-For") chain r.header in
    let with_ip = set_absent true (bytes "X-Real-IP") c_ip with_chain in
    let with_host = set_absent (not (is_empty r.host)) (bytes "X-Forwarded-Host") r.host with_ip in
    let proto = if r.tls then bytes "https" else bytes "http" in
    if is_empty c_ip
    then r
    else record r { header = set (bytes "X-Forwarded-Proto") proto with_host }

-- HeaderTransform up to its call of the next handler: the request that the latter sees.
unfoldable pub transform_request : HeaderTransformConfig → Request → Request
unfolding strip_hop_by_hop_headers set_all set_forwarded_headers
transform_request cfg r =
    let header =
      set_all cfg.add_request (del_all cfg.remove_request (strip_hop_by_hop_headers r.header)) in
    let r' = record r { header = header } in
    if cfg.disable_forwarded_for then r' else set_forwarded_headers cfg.trust_proxy_hops r'

-- responseHeaderRewriter: what the wrapped writer's headers are when the next handler writes.
pub record ResponseHeaderRewriter : Type 0 where
  pub header : Header
  pub applied : Bool

unfoldable pub apply_once : HeaderTransformConfig → ResponseHeaderRewriter → ResponseHeaderRewriter
unfolding del_all set_all
apply_once cfg w = if w.applied then w else record {
  header = set_all cfg.add_response (del_all cfg.remove_response w.header);
  applied = true;
}
