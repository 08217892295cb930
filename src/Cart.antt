-- ===== src/Cart.antt =====
-- The cart service (services/cart).
pub mod Types
pub mod Planner
pub mod Store
pub mod Calls
pub mod Transfer
mod Tests
pub mod Repository
pub mod Service
