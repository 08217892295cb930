-- ===== src/Gateway.antt =====
-- The edge: api-gateway/src.
pub mod Delivered
pub mod Edge
pub mod Identity
pub mod Policy
pub mod Proven
mod Tests
