-- ===== src/Inventory/Tables.antt =====
-- The rows of the inventory database (services/inventory/prisma/schema.prisma), as the repository's
-- types name them. A UUID or a message id is only compared, so it is a number; a UUID is printed
-- with a fixed width, so the order of the texts is the order of the numbers. The time stamps are
-- the database's own and are left out: a table of history rows has its newest rows first.
use practical_microservice.Common.{ℕ, List, [], ◌∷◌, Option, String, ◌==◌, if◌then◌else◌}
use practical_microservice.Common.Int.{ℤ}
use practical_microservice.Inventory.Rules.{StockLevels}

-- `enum StockMovementType`
pub data StockMovementType : Type 0 where
  inbound outbound reservation release return adjustment : StockMovementType

pub record InventoryItem : Type 0 where
  pub id : ℕ
  pub sku : String
  pub product_id : ℕ
  pub warehouse : String
  pub quantity : ℤ
  pub reserved : ℤ
  pub reorder_level : ℤ

abbrev pub levels : InventoryItem → StockLevels
levels item = record { quantity = item.quantity; reserved = item.reserved }

pub record StockMovementHistory : Type 0 where
  pub item_id : ℕ
  pub type : StockMovementType
  pub quantity_changed : ℤ
  pub last_quantity : ℤ
  pub reason : Option String
  pub reference : Option String

-- `AUDITED_FIELDS`: the columns that a PATCH may name.
pub data InventoryFieldName : Type 0 where
  sku_field product_id_field warehouse_field quantity_field reorder_level_field : InventoryFieldName

-- A column's value before it is rendered as text.
pub data FieldValue : Type 0 where
  text : String → FieldValue
  uuid : ℕ → FieldValue
  number : ℤ → FieldValue

pub record FieldChange : Type 0 where
  pub field : InventoryFieldName
  pub old_value : FieldValue
  pub new_value : FieldValue

pub record InventoryAuditLog : Type 0 where
  pub item_id : ℕ
  pub change : FieldChange
  pub actor : Option String

pub record ProcessedMessage : Type 0 where
  pub message_id : ℕ
  pub type : String
  pub reference : Option String

pub record Tables : Type 0 where
  pub items : List InventoryItem
  pub movements : List StockMovementHistory
  pub audit_logs : List InventoryAuditLog
  pub processed : List ProcessedMessage

-- Writes a row over the one with its id.
abbrev pub put : InventoryItem → List InventoryItem → List InventoryItem
put item [] = []
put item (x ∷ xs) = if x.id == item.id then item ∷ xs else x ∷ put item xs
