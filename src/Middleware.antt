-- ===== src/Middleware.antt =====
-- internal/middleware: the handlers between the router and the proxy.
pub mod ClientIp
pub mod RateLimit
pub mod Headers
pub mod Compress
pub mod Retry
mod Examples
