-- ===== src/Upstream/WebSocket.antt =====
-- internal/upstream/websocket.go: upgrades to WebSocket. What the sockets do is told by `Events`.
pub mod Upgrade
use l7rp.Base.{
  ℕ, Bool, true, false, ◌&&◌, ◌||◌, not, List, [], ◌∷◌, ◌++◌, ◌==◌, Option, none, some,
  if◌then◌else◌, Str, bytes, str_eq, to_lower, is_empty, contains_byte, split, trim_space, any,
}
use l7rp.Http.{Header, get}
use l7rp.Lb.Breaker.{BreakerOutcome, outcome_success}

-- strings.EqualFold on ASCII.
abbrev pub equal_fold : Str → Str → Bool
equal_fold s t = str_eq (to_lower s) (to_lower t)

unfoldable pub is_web_socket_upgrade : (method : Str) → Header → Bool
is_web_socket_upgrade method h =
    str_eq method (bytes "GET")
    && equal_fold (get (bytes "Upgrade") h) (bytes "websocket")
    && any (λ c. equal_fold (trim_space c) (bytes "upgrade"))
        (split 44 (get (bytes "Connection") h))

-- The response writers that the handlers of a chain put around one another: `status_writer w` stands around `w`. Each
-- embeds the ResponseWriter interface, so it has no Hijack, and a Flush only where it declares one.
pub data Writer : Type 0 where
  server_writer : Writer  -- that of net/http, for HTTP/1
  status_writer access_recorder write_tracker : Writer → Writer
  response_header_rewriter compressing_writer : Writer → Writer
  buffered_response : Writer

unfoldable pub is_hijacker : Writer → Bool
is_hijacker server_writer = true
is_hijacker _ = false

unfoldable pub is_flusher : Writer → Bool
is_flusher server_writer = true
is_flusher (compressing_writer w) = true
is_flusher _ = false

pub record Events : Type 0 where
  pub hijacks : Bool
  pub dials : Bool
  pub replays : Bool
  pub answer : Option ℕ  -- the status that ReadResponse yields, or its error
  pub relays : Bool

-- How serveWebSocket ends, with what the client gets by itself: an error status, the upstream's
-- response, or nothing but a closed connection.
pub data Served : Type 0 where
  failed : (status : ℕ) → Served
  relay_failed : Served
  declined : (status : ℕ) → Served
  switched : Served

unfoldable pub serve_web_socket : Writer → Events → Served
unfolding is_hijacker
serve_web_socket w ev =
    if not (is_hijacker w)
    then failed 500
    else if not ev.hijacks
    then failed 500
    else if not ev.dials
    then failed 502
    else if not ev.replays
    then failed 502
    else elim (ev.answer) [
      | none ↦ failed 502
      | some code ↦
          if not ev.relays then relay_failed else if code == 101 then switched else declined code
    ]

-- What the breaker is told; only `switched` holds the upstream for a while.
abbrev pub reported : Served → Option BreakerOutcome
reported switched = some outcome_success
reported _ = none

-- dialUpstream: the address that is dialled, and whether TLS is spoken.
abbrev pub is_secure : Str → Bool
is_secure scheme = str_eq scheme (bytes "https") || str_eq scheme (bytes "wss")

unfoldable pub dial_address : (scheme host : Str) → Str
dial_address scheme host =
    if contains_byte 58 host
    then host
    else host ++ (if is_secure scheme then bytes ":443" else bytes ":80")
