-- ===== src/Inventory/Repository.antt =====
-- `PrismaInventoryRepository`, the part of it that writes:
-- services/inventory/src/modules/inventory/inventory.repository.ts. Each method is one serializable
-- transaction over the database client that the section takes.
pub mod Diff
pub mod Audit
pub mod StockChange
pub mod Targets
pub mod Update
use practical_microservice.Common.{
  ℕ, Bool, true, false, not, ◌&&◌, ltb, List, [], ◌∷◌, map, Option, none, some, String, ◌==◌,
  if◌then◌else◌,
}
use practical_microservice.Common.Int.{ℤ, pos, abs, ◌-ℤ◌, ◌==ℤ◌, ltb_ℤ}
use practical_microservice.Inventory.Errors.{
  AppError, not_found_error, duplicate_operation_error, internal_server_error_error,
}
use practical_microservice.Inventory.Rules.{Checked, StockLevels}
use practical_microservice.Inventory.Tables.{
  StockMovementType, inbound, adjustment, InventoryItem, StockMovementHistory, FieldChange,
  InventoryAuditLog, ProcessedMessage,
}
use practical_microservice.Inventory.Transaction.{
  Tx, ◌>>=◌, ◌>>◌, pure, throw, lift, Action, Result, ok, err, raised, prisma, unique_violation,
}
use practical_microservice.Inventory.Statement.{has_id}
use practical_microservice.Inventory.Database.{Database}
use Prim.Native.String
use Diff.{UpdateInventoryItemInput, patch_item, diff_inventory_item}

-- `CreateInventoryItemInput`
pub record CreateInventoryItemInput : Type 0 where
  pub sku : String
  pub product_id : ℕ
  pub warehouse : String
  pub quantity : ℤ
  pub reorder_level : ℤ

-- The `movement` of a plan.
pub record PlannedMovement : Type 0 where
  pub type : StockMovementType
  pub quantity : ℤ
  pub reason : Option String
  pub reference : Option String

pub record StockChangePlan : Type 0 where
  pub next : StockLevels
  pub movement : PlannedMovement

pub record BulkStockChangePlan : Type 0 where
  pub product_id : ℕ
  pub next : StockLevels
  pub movement : PlannedMovement

-- The map by product that a batch's planner receives.
abbrev pub ItemMap : Type 0
ItemMap = ℕ → Option InventoryItem

pub record IdempotencyKey : Type 0 where
  pub message_id : ℕ
  pub type : String
  pub reference : Option String

-- A plan beside the row that it was made for.
pub record Target : Type 0 where
  pub next : BulkStockChangePlan
  pub item : InventoryItem

abbrev pub movement_row : ℕ → ℤ → PlannedMovement → StockMovementHistory
movement_row id last movement = record {
  item_id = id;
  type = movement.type;
  quantity_changed = movement.quantity;
  last_quantity = last;
  reason = movement.reason;
  reference = movement.reference;
}

abbrev pub initial_stock : InventoryItem → PlannedMovement
initial_stock item = record {
  type = inbound;
  quantity = item.quantity;
  reason = some "Initial stock";
  reference = none;
}

abbrev pub audit_row : ℕ → Option String → FieldChange → InventoryAuditLog
audit_row id actor change = record { item_id = id; change = change; actor = actor }

-- `Patched by ${context.actor ?? "unknown"}`
abbrev pub patched_by : Option String → String
patched_by none = "Patched by unknown"
patched_by (some actor) = String.◌++◌ "Patched by " actor

abbrev pub patch_movement : Option String → InventoryItem → InventoryItem → PlannedMovement
patch_movement actor updated current = record {
  type = adjustment;
  quantity = abs (updated.quantity -ℤ current.quantity);
  reason = some (patched_by actor);
  reference = none;
}

unfoldable pub or_not_found : Option InventoryItem → Tx InventoryItem
unfolding pure throw
or_not_found none = throw not_found_error
or_not_found (some item) = pure item

-- `new Map(current.map((item) => [item.productId, item]))`: a later entry wins.
unfoldable pub by_product_id : List InventoryItem → ItemMap
by_product_id [] product = none
by_product_id (item ∷ items) product = elim (by_product_id items product) [
  | some found ↦ some found
  | none ↦ if item.product_id == product then some item else none
]

-- `catch (error) { if (isUniqueViolation(error)) throw new DuplicateOperationError(…) }`
unfoldable pub duplicate_for : {A : Type 0} → ℕ → Result A → Result A
duplicate_for message (err (prisma unique_violation)) =
    err (raised (duplicate_operation_error message))
duplicate_for message r = r

unfoldable pub or_duplicate : {A : Type 0} → ℕ → Tx A → Tx A
unfolding duplicate_for
or_duplicate message m t = duplicate_for message (m t)

abbrev pub processed_row : IdempotencyKey → ProcessedMessage
processed_row key = record {
  message_id = key.message_id;
  type = key.type;
  reference = key.reference;
}

-- The loop of `plans.map` that pairs each plan with its row.
unfoldable pub find_targets : ItemMap → List BulkStockChangePlan → Tx (List Target)
unfolding ◌>>=◌
find_targets items [] = pure []
find_targets items (next ∷ plans) = elim (items next.product_id) [
  | none ↦ throw internal_server_error_error
  | some item ↦ do
    targets ← find_targets items plans
    pure (record { next = next; item = item } ∷ targets)
]

-- `targets.sort`, by primary key.
unfoldable pub insert_target : Target → List Target → List Target
insert_target a [] = a ∷ []
insert_target a (b ∷ targets) =
    if ltb b.item.id a.item.id then b ∷ insert_target a targets else a ∷ b ∷ targets

unfoldable pub sort_targets : List Target → List Target
unfolding insert_target
sort_targets [] = []
sort_targets (a ∷ targets) = insert_target a (sort_targets targets)

module _ (db : Database) where
  unfoldable pub find_by_id : ℕ → Tx (Option InventoryItem)
  find_by_id id = db.find_unique (has_id id)

  -- The claim on the idempotency key, when there is one.
  unfoldable pub claim : Option IdempotencyKey → Tx (Unit {0})
  unfolding pure or_duplicate
  claim none = pure tt
  claim (some key) = or_duplicate key.message_id (db.create_processed (processed_row key))

  -- The loop over the sorted targets: the rows written, and the ledger rows to write.
  unfoldable pub write_targets : List Target → Tx (List InventoryItem × List StockMovementHistory)
  write_targets [] = pure ([], [])
  write_targets (target ∷ targets) = do
    updated ← db.update_levels target.item.id target.next.next
    (rest, movements) ← write_targets targets
    pure (
      updated ∷ rest,
      movement_row target.item.id target.item.quantity target.next.movement ∷ movements,
    )

  -- The part of `update` behind the diff.
  unfoldable pub save_changes :
      ℕ
      → UpdateInventoryItemInput
      → Option String
      → InventoryItem
      → List FieldChange
      → Tx InventoryItem
  save_changes id input actor current [] = pure current
  save_changes id input actor current (change ∷ changes) = do
    updated ← db.update_item id (patch_item input)
    db.create_audit_logs (map (audit_row id actor) (change ∷ changes))
    if updated.quantity ==ℤ current.quantity
        then pure tt
        else db.create_movements
            (movement_row id current.quantity (patch_movement actor updated current) ∷ [])
    pure updated

  -- `create`; the database makes the id, and a new row has nothing reserved.
  unfoldable pub create : ℕ → CreateInventoryItemInput → Action InventoryItem
  create id input = db.transaction InventoryItem (do
    item ← db.create_item (record {
      id = id;
      sku = input.sku;
      product_id = input.product_id;
      warehouse = input.warehouse;
      quantity = input.quantity;
      reserved = pos 0;
      reorder_level = input.reorder_level;
    })
    if ltb_ℤ (pos 0) item.quantity
        then db.create_movements (movement_row item.id (pos 0) (initial_stock item) ∷ [])
        else pure tt
    pure item)

  unfoldable pub update :
      ℕ
      → UpdateInventoryItemInput
      → Option String
      → (InventoryItem → Checked (Unit {0}))
      → Action InventoryItem
  unfolding save_changes
  update id input actor validate = db.transaction InventoryItem (do
    current ← find_by_id id >>= or_not_found
    lift (validate current)
    save_changes id input actor current (diff_inventory_item current input))

  unfoldable pub delete : ℕ → Action (Unit {0})
  delete id = db.transaction (Unit {0}) (db.delete_item id)

  unfoldable pub apply_stock_change :
      ℕ → (InventoryItem → Checked StockChangePlan) → Action InventoryItem
  apply_stock_change id plan = db.transaction InventoryItem (do
    current ← find_by_id id >>= or_not_found
    next ← lift (plan current)
    updated ← db.update_levels id next.next
    db.create_movements (movement_row id current.quantity next.movement ∷ [])
    pure updated)

  unfoldable pub apply_bulk_stock_change :
      List ℕ
      → (ItemMap → Checked (List BulkStockChangePlan))
      → Option IdempotencyKey
      → Action (List InventoryItem)
  unfolding claim write_targets
  apply_bulk_stock_change products plan key = db.transaction (List InventoryItem) (do
    claim key
    current ← db.find_many products
    plans ← lift (plan (by_product_id current))
    targets ← find_targets (by_product_id current) plans
    (updated, movements) ← write_targets (sort_targets targets)
    db.create_movements movements
    pure updated)
