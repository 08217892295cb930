-- ===== src/Auth.antt =====
-- The auth service (services/auth).
pub mod Errors
pub mod Tables
pub mod Statement
pub mod Repository
pub mod Environment
pub mod Service
pub mod Reaper
pub mod Agreement
pub mod Invariant
pub mod Sessions
pub mod Accounts
mod Tests
