-- ===== src/Listener.antt =====
-- internal/listener: what guards the entry of requests, and the certificates that are served.
pub mod Smuggling
pub mod Tls
