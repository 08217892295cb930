-- ===== src/Inventory/Database.antt =====
-- The database client as the repository sees it. Prisma and PostgreSQL are not part of the
-- repository, so their operations are a parameter, and what the code relies on is a law of each:
-- a statement does what its documentation says or is refused, and a transaction leaves no trace
-- if its body throws or its commit is refused.
use practical_microservice.Common.{ℕ, ◌≡◌, ◌⊎◌, inl, refl, Bool, List, Option}
use practical_microservice.Inventory.Rules.{StockLevels}
use practical_microservice.Inventory.Tables.{
  InventoryItem, StockMovementHistory, InventoryAuditLog, ProcessedMessage, Tables,
}
use practical_microservice.Inventory.Transaction.{Tx, Action, err, prisma, refused, settle}
use practical_microservice.Inventory.Statement

-- A statement does what is documented, or is refused.
pub record Follows {A : Type 0} (m spec : Tx A) : Type 0 where
  pub at : (t : Tables) → (m t ≡ spec t) ⊎ (m t ≡ err (prisma refused))

-- An action does what is documented, or is refused and changes nothing.
pub record Agrees {A : Type 0} (m spec : Action A) : Type 0 where
  pub at : (t : Tables) → (m t ≡ spec t) ⊎ (m t ≡ (err (prisma refused), t))

pub record Database : Type 1 where
  pub transaction : (A : Type 0) → Tx A → Action A
  pub find_unique : (InventoryItem → Bool) → Tx (Option InventoryItem)
  pub find_many : List ℕ → Tx (List InventoryItem)
  pub create_item : InventoryItem → Tx InventoryItem
  pub update_item : ℕ → (InventoryItem → InventoryItem) → Tx InventoryItem
  pub update_levels : ℕ → StockLevels → Tx InventoryItem
  pub delete_item : ℕ → Tx (Unit {0})
  pub create_movements : List StockMovementHistory → Tx (Unit {0})
  pub create_audit_logs : List InventoryAuditLog → Tx (Unit {0})
  pub create_processed : ProcessedMessage → Tx (Unit {0})
  pub transaction_lem : (A : Type 0) (m : Tx A) → Agrees (transaction A m) (λ t. settle (m t) t)
  pub find_unique_lem :
      (test : InventoryItem → Bool) → Follows (find_unique test) (Statement.find_unique test)
  pub find_many_lem :
      (products : List ℕ) → Follows (find_many products) (Statement.find_many products)
  pub create_item_lem :
      (new : InventoryItem) → Follows (create_item new) (Statement.create_item new)
  pub update_item_lem :
      (id : ℕ) (patch : InventoryItem → InventoryItem)
      → Follows (update_item id patch) (Statement.update_item id patch)
  pub update_levels_lem :
      (id : ℕ) (next : StockLevels)
      → Follows (update_levels id next) (Statement.update_levels id next)
  pub delete_item_lem : (id : ℕ) → Follows (delete_item id) (Statement.delete_item id)
  pub create_movements_lem :
      (rows : List StockMovementHistory)
      → Follows (create_movements rows) (Statement.create_movements rows)
  pub create_audit_logs_lem :
      (rows : List InventoryAuditLog)
      → Follows (create_audit_logs rows) (Statement.create_audit_logs rows)
  pub create_processed_lem :
      (row : ProcessedMessage) → Follows (create_processed row) (Statement.create_processed row)

-- The laws can be met: nothing is ever refused.
abbrev pub memory : Database
memory = record {
  transaction = λ A m t. settle (m t) t;
  find_unique = Statement.find_unique;
  find_many = Statement.find_many;
  create_item = Statement.create_item;
  update_item = Statement.update_item;
  update_levels = Statement.update_levels;
  delete_item = Statement.delete_item;
  create_movements = Statement.create_movements;
  create_audit_logs = Statement.create_audit_logs;
  create_processed = Statement.create_processed;
  transaction_lem = λ A m. record { at = λ t. inl refl };
  find_unique_lem = λ test. record { at = λ t. inl refl };
  find_many_lem = λ products. record { at = λ t. inl refl };
  create_item_lem = λ new. record { at = λ t. inl refl };
  update_item_lem = λ id patch. record { at = λ t. inl refl };
  update_levels_lem = λ id next. record { at = λ t. inl refl };
  delete_item_lem = λ id. record { at = λ t. inl refl };
  create_movements_lem = λ rows. record { at = λ t. inl refl };
  create_audit_logs_lem = λ rows. record { at = λ t. inl refl };
  create_processed_lem = λ row. record { at = λ t. inl refl };
}
