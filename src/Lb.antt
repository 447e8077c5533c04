-- ===== src/Lb.antt =====
-- internal/lb: the circuit breaker, the upstreams and the selectors over them.
pub mod Breaker
pub mod Upstream
pub mod Selector
mod Elements
pub mod RoundRobin
pub mod LeastConnections
pub mod PowerOfTwo
pub mod ConsistentHash
pub mod WeightedRoundRobin
mod Examples
