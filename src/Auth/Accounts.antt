-- ===== src/Auth/Accounts.antt =====
-- What the service's requests do to accounts and codes.
pub mod Guesses
pub mod Login
pub mod Lockout
pub mod Passwords
pub mod Change
pub mod Privacy
