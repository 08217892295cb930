-- ===== src/Email.antt =====
-- The email service (services/email): an outbox and its dispatcher.
pub mod Errors
pub mod Tables
pub mod Backoff
pub mod Repository
pub mod Service
pub mod Dispatcher
mod Tests
