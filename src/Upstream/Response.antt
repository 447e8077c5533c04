-- ===== src/Upstream/Response.antt =====
-- internal/upstream/proxy.go: the request that goes to the upstream, and what goes back to the client.
-- A map of headers is ranged over in the order of its list.
use l7rp.Base.{
  ℕ, Bool, true, false, ◌&&◌, not, List, [], ◌∷◌, ◌++◌, if◌then◌else◌, Str, bytes, is_empty, str_eq,
  split, trim_space,
}
use l7rp.Http.{Header, get, put, set, add}
use l7rp.Middleware.Retry.{BufferedResponse}

-- What buildUpstreamRequest changes of a request, and what it reads of the upstream's URL.
pub record Target : Type 0 where
  pub scheme : Str
  pub url_host : Str
  pub path : Str
  pub host : Str
  pub request_uri : Str

pub record UpstreamUrl : Type 0 where
  pub scheme : Str
  pub host : Str
  pub path : Str

unfoldable pub build_upstream_request : Target → UpstreamUrl → Target
build_upstream_request r u =
    let prefixed = not (is_empty u.path) && not (str_eq u.path (bytes "/")) in
    record {
      scheme = u.scheme;
      url_host = u.host;
      path = if prefixed then u.path ++ r.path else r.path;
      host = u.host;
      request_uri = [];
    }

unfoldable pub write_error : ℕ → Str → BufferedResponse
write_error code msg = record {
  headers =
      set (bytes "X-Content-Type-Options") (bytes "nosniff")
        (set (bytes "Content-Type") (bytes "text/plain; charset=utf-8") []);
  status_code = code;
  body = msg ++ 10 ∷ [];
}

-- `w.Header()[k] = vs`
unfoldable pub copy_header : Header → Header → Header
copy_header [] w = w
copy_header ((k, vs) ∷ h) w = copy_header h (put k vs w)

unfoldable pub add_names : List Str → Header → Header
add_names [] w = w
add_names (k ∷ ks) w = add_names ks (if is_empty k then w else add (bytes "Trailer") k w)

abbrev pub trimmed : List Str → List Str
trimmed [] = []
trimmed (k ∷ ks) = trim_space k ∷ trimmed ks

abbrev pub keys : Header → List Str
keys [] = []
keys ((k, vs) ∷ h) = k ∷ keys h

-- announceTrailers; the names of `trailer` are not empty.
unfoldable pub announce_trailers : (header trailer : Header) → Header → Header
unfolding add_names
announce_trailers header trailer w =
    add_names (keys trailer) (add_names (trimmed (split 44 (get (bytes "Trailer") header))) w)

abbrev pub add_values : Str → List Str → Header → Header
add_values name [] w = w
add_values name (v ∷ vs) w = add_values name vs (add name v w)

abbrev pub trailer_prefix : Str
trailer_prefix = bytes "Trailer:"

unfoldable pub add_trailers : Header → Header → Header
add_trailers [] w = w
add_trailers ((k, vs) ∷ trailer) w = add_trailers trailer (add_values (trailer_prefix ++ k) vs w)

-- The copying loop: what each Read yields, and whether the write of it goes well. The second result
-- is whether the loop ended by the body's end.
unfoldable pub copy_body : List (Str × Bool) → Str × Bool
copy_body [] = ([], true)
copy_body ((p, ok) ∷ reads) =
    let (rest, whole) = copy_body reads in
    if is_empty p then (rest, whole) else if ok then (p ++ rest, whole) else ([], false)

pub record Response : Type 0 where
  pub header : Header
  pub status_code : ℕ
  pub trailer : Header

-- What the client's writer has in the end: the headers when the status is written, the body, and the
-- headers at the end, from which the server takes the trailers.
pub record Downstream : Type 0 where
  pub header : Header
  pub status_code : ℕ
  pub body : Str
  pub final_header : Header

unfoldable pub copy_response : Header → Response → List (Str × Bool) → Downstream
unfolding copy_header announce_trailers copy_body add_trailers
copy_response w resp reads =
    let header = announce_trailers resp.header resp.trailer (copy_header resp.header w) in
    let (body, whole) = copy_body reads in
    record {
      header = header;
      status_code = resp.status_code;
      body = body;
      final_header = if whole then add_trailers resp.trailer header else header;
    }
