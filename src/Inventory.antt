-- ===== src/Inventory.antt =====
-- The inventory service (services/inventory).
pub mod Errors
pub mod Rules
pub mod Tables
pub mod Database
pub mod Transaction
pub mod Statement
pub mod Repository
pub mod Service
pub mod Refinement
mod Tests
pub mod Rows
pub mod Invariant
pub mod Requests
