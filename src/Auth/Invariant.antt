-- ===== src/Auth/Invariant.antt =====
-- The sessions and the codes of the auth database under sequences of its transactions, and under
-- two that overlap.
pub mod Sessions
pub mod Codes
pub mod Keeps
pub mod Writes
pub mod Reach
pub mod Overlap
