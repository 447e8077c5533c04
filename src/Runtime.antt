-- ===== src/Runtime.antt =====
-- cmd/l7rp/main.go: the object graph that is built from a configuration, and its reload.
pub mod Settings
pub mod Upstreams
pub mod Listeners
pub mod Pools
pub mod Reload
pub mod Chain
