-- ===== src/Inventory/Refinement.antt =====
-- Every operation of the service over any lawful database client is the same operation over the
-- documented one, unless a statement is refused: then it fails and changes nothing.
mod Rules
mod Operations
pub use Rules.*
pub use Operations.*
