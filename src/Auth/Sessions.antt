-- ===== src/Auth/Sessions.antt =====
-- What the service's requests do to sessions.
pub mod Refresh
pub mod Reuse
