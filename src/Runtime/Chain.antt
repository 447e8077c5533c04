-- ===== src/Runtime/Chain.antt =====
-- cmd/l7rp/main.go and internal/middleware: the response writer that the proxy gets at the end of a
-- route's chain, and so what it can do with an upgrade or a stream.
mod Examples
use l7rp.Base.{
  ◌≡◌, refl, ◌∙◌, ◌==◌, Bool, true, false, List, [], ◌∷◌, ◌++◌, if◌then◌else◌, arith, any,
  Bool-cases, inl, inr,
}
use l7rp.Config.{RouteConfig}
use l7rp.Runtime.Settings.{
  Middleware, request_id, access_log, panic_recover, rate_limit, timeout, retry, header_transform,
  compress, build_middleware,
}
use l7rp.Runtime.Settings.Order.{place, is_kind, build_middleware-canonical}
use l7rp.Upstream.WebSocket.{
  Writer, server_writer, status_writer, access_recorder, write_tracker, response_header_rewriter,
  compressing_writer, buffered_response, is_hijacker, is_flusher, Events, Served, failed,
  serve_web_socket,
}

module _ {F : Type 0} where
  -- The writer that a middleware hands to the next handler; `encodes` tells whether Compress finds an
  -- encoding for the request.
  unfoldable pub wrap : (encodes : Bool) → Middleware F → Writer → Writer
  wrap encodes request_id w = w
  wrap encodes (access_log route) w = access_recorder w
  wrap encodes panic_recover w = write_tracker w
  wrap encodes (rate_limit c route) w = w
  wrap encodes (timeout t) w = w
  wrap encodes (retry c) w = buffered_response
  wrap encodes (header_transform c) w = response_header_rewriter w
  wrap encodes (compress c) w = if encodes then compressing_writer w else w

  -- Chain: the first of the list is the outermost.
  unfoldable pub chain : (encodes : Bool) → List (Middleware F) → Writer → Writer
  unfolding wrap
  chain encodes [] w = w
  chain encodes (m ∷ ms) w = chain encodes ms (wrap encodes m w)

  -- What the proxy of a route writes to: the chain inside observingHandler.
  unfoldable pub proxy_writer : (encodes : Bool) → RouteConfig F → Writer
  unfolding chain build_middleware
  proxy_writer encodes rc = chain encodes (build_middleware rc) (status_writer server_writer)

  wrap-is_hijacker :
      (encodes : Bool) (m : Middleware F) (w : Writer)
      → is_hijacker w ≡ false
      → is_hijacker (wrap encodes m w) ≡ false
  unfolding wrap is_hijacker
  wrap-is_hijacker encodes m w h = ground arith

  chain-is_hijacker :
      (encodes : Bool) (ms : List (Middleware F)) (w : Writer)
      → is_hijacker w ≡ false
      → is_hijacker (chain encodes ms w) ≡ false
  unfolding chain
  chain-is_hijacker encodes [] w h = h
  chain-is_hijacker encodes (m ∷ ms) w h =
      chain-is_hijacker encodes ms (wrap encodes m w) (wrap-is_hijacker encodes m w h)

  -- Whatever a route configures, an upgrade that reaches its proxy is answered with 500, whatever
  -- the sockets would have done.
  pub serve_web_socket-proxy_writer :
      (encodes : Bool) (rc : RouteConfig F) (ev : Events)
      → serve_web_socket (proxy_writer encodes rc) ev ≡ failed 500
  unfolding serve_web_socket proxy_writer is_hijacker
  serve_web_socket-proxy_writer encodes rc ev =
      let e = chain-is_hijacker encodes (build_middleware rc) (status_writer server_writer) refl in
      rw e

  wrap-is_flusher :
      (encodes : Bool) (m : Middleware F) (w : Writer)
      → (place m == 7) ≡ false
      → is_flusher w ≡ false
      → is_flusher (wrap encodes m w) ≡ false
  unfolding wrap is_flusher
  wrap-is_flusher encodes m w k h = ground arith

  chain-is_flusher :
      (encodes : Bool) (ms : List (Middleware F)) (w : Writer)
      → any (λ m. place m == 7) ms ≡ false
      → is_flusher w ≡ false
      → is_flusher (chain encodes ms w) ≡ false
  unfolding chain
  chain-is_flusher encodes [] w k h = h
  chain-is_flusher encodes (m ∷ ms) w k h =
      chain-is_flusher encodes ms (wrap encodes m w) (ground arith)
        (wrap-is_flusher encodes m w (ground arith) h)

  -- On a route without compression the proxy does not flush what it copies.
  pub proxy_writer-is_flusher :
      (encodes : Bool) (rc : RouteConfig F)
      → any (is_kind 7) rc.middleware ≡ false
      → is_flusher (proxy_writer encodes rc) ≡ false
  unfolding proxy_writer is_flusher
  proxy_writer-is_flusher encodes rc k =
      let (rises, same) = build_middleware-canonical rc 7 (omega arith) refl in
      chain-is_flusher encodes (build_middleware rc) (status_writer server_writer) (same ∙ k) refl
