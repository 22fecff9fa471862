-- ===== src/Headroom.antt =====
-- internal/headroom: the circuit breaker, the bounded client of the compression service and the
-- adapter of the payloads.
pub mod Circuit
pub mod Calls
pub mod Client
pub mod Endpoint
pub mod Adapter
