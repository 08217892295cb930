-- ===== src/Inventory/Invariant.antt =====
-- What holds of the tables between requests: no item is oversold, and the ledger of each item
-- (services/inventory/prisma/schema.prisma, `StockMovementHistory`) explains its stock.
pub mod Defs
pub mod Writes
pub mod Keeps
pub mod Lifecycle
pub mod Batch
