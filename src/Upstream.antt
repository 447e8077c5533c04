-- ===== src/Upstream.antt =====
-- internal/upstream: the terminal handler of a route.
pub mod Proxy
pub mod WebSocket
pub mod Response
