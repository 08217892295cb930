-- ===== src/Inventory/Service.antt =====
-- `InventoryService`: services/inventory/src/modules/inventory/inventory.service.ts.
pub mod Bulk
use practical_microservice.Common.{
  ℕ, Bool, List, [], map, Option, none, some, String, if◌then◌else◌,
}
use practical_microservice.Common.Int.{ℤ, pos, abs, ltb_ℤ}
use practical_microservice.Inventory.Errors.{not_found_error, conflict_error}
use practical_microservice.Inventory.Rules.{
  Checked, ◌>>=◌, ◌>>◌, returns, StockLevels, available_stock, is_low_stock, assert_invariants,
  plan_reservation, plan_release, plan_fulfilment, plan_sale, plan_receipt, plan_adjustment,
}
use practical_microservice.Inventory.Tables.{
  StockMovementType, inbound, outbound, reservation, release, return, adjustment, InventoryItem,
  levels,
}
use practical_microservice.Inventory.Transaction.{Action, bind, give, fail}
use practical_microservice.Inventory.Statement.{has_sku, has_product}
use practical_microservice.Inventory.Database.{Database}
use practical_microservice.Inventory.Repository.{
  CreateInventoryItemInput, StockChangePlan, IdempotencyKey, find_by_id, apply_stock_change,
  apply_bulk_stock_change,
}
use practical_microservice.Inventory.Repository.Diff.{UpdateInventoryItemInput}
use practical_microservice.Inventory.Repository
use Bulk.{BulkInput, plan_bulk, line_products}

-- `InventoryItemView`
pub record InventoryItemView : Type 0 where
  pub item : InventoryItem
  pub available : ℤ
  pub low_stock : Bool

unfoldable pub to_inventory_item_view : InventoryItem → InventoryItemView
to_inventory_item_view item = record {
  item = item;
  available = available_stock (levels item);
  low_stock = is_low_stock (levels item) item.reorder_level;
}

-- The body of a single-item transition; `reason` and `reference` are its `meta`.
pub record StockInput : Type 0 where
  pub quantity : ℤ
  pub reason : Option String
  pub reference : Option String

-- The planner that `applyChange` hands to the repository.
unfoldable pub change_plan :
    StockMovementType
    → ℤ
    → StockInput
    → (StockLevels → Checked StockLevels)
    → InventoryItem
    → Checked StockChangePlan
change_plan type movement_quantity meta plan item = do
  next ← plan (levels item)
  assert_invariants next
  returns (record {
    next = next;
    movement = record {
      type = type;
      quantity = movement_quantity;
      reason = meta.reason;
      reference = meta.reference;
    };
  })

-- `if (input.quantity !== undefined) assertInvariants(…)`
unfoldable pub validate_patch : UpdateInventoryItemInput → InventoryItem → Checked (Unit {0})
validate_patch input current = elim input.quantity [
  | none ↦ returns tt
  | some quantity ↦ assert_invariants (record { quantity = quantity; reserved = current.reserved })
]

abbrev pub views : List InventoryItem → List InventoryItemView
views = map to_inventory_item_view

unfoldable pub view_found : Option InventoryItem → Action InventoryItemView
unfolding give fail
view_found none = fail not_found_error
view_found (some item) = give (to_inventory_item_view item)

unfoldable pub refuse_found : {A : Type 0} → Option A → Action (Unit {0})
unfolding give fail
refuse_found none = give tt
refuse_found (some _) = fail (conflict_error [])

module _ (db : Database) where
  -- A read outside a transaction of several statements.
  unfoldable pub read : (InventoryItem → Bool) → Action (Option InventoryItem)
  read test = db.transaction (Option InventoryItem) (db.find_unique test)

  unfoldable pub get_by_id : ℕ → Action InventoryItemView
  unfolding read
  get_by_id id = bind (db.transaction (Option InventoryItem) (find_by_id db id)) view_found

  unfoldable pub get_by_sku : String → Action InventoryItemView
  unfolding read
  get_by_sku sku = bind (read (has_sku sku)) view_found

  unfoldable pub create : ℕ → CreateInventoryItemInput → Action InventoryItemView
  unfolding read
  create id input = bind (read (has_sku input.sku)) λ existing. bind (refuse_found existing) λ _.
      bind (read (has_product input.product_id)) λ for_product.
        bind (refuse_found for_product)
          λ _. bind (Repository.create db id input) λ item. give (to_inventory_item_view item)

  unfoldable pub update : ℕ → UpdateInventoryItemInput → Option String → Action InventoryItemView
  update id input actor =
      bind (Repository.update db id input actor (validate_patch input))
        λ item. give (to_inventory_item_view item)

  -- `remove`, with what other requests commit between its check and its delete.
  unfoldable pub remove_during : Action (Unit {0}) → ℕ → Action (Unit {0})
  remove_during others id = bind (get_by_id id) λ view.
      if ltb_ℤ (pos 0) view.item.reserved
      then fail (conflict_error [])
      else bind others λ _. Repository.delete db id

  unfoldable pub remove : ℕ → Action (Unit {0})
  unfolding remove_during
  remove = remove_during (give tt)

  unfoldable pub apply_change :
      ℕ
      → StockMovementType
      → ℤ
      → StockInput
      → (StockLevels → Checked StockLevels)
      → Action InventoryItemView
  unfolding change_plan
  apply_change id type movement_quantity meta plan =
      bind (apply_stock_change db id (change_plan type movement_quantity meta plan))
        λ item. give (to_inventory_item_view item)

  unfoldable pub reserve : ℕ → StockInput → Action InventoryItemView
  reserve id input =
      apply_change id reservation input.quantity input
        (λ item. plan_reservation item input.quantity)

  unfoldable pub release_units : ℕ → StockInput → Action InventoryItemView
  release_units id input =
      apply_change id release input.quantity input (λ item. plan_release item input.quantity)

  unfoldable pub fulfil : ℕ → StockInput → Action InventoryItemView
  fulfil id input =
      apply_change id outbound input.quantity input (λ item. plan_fulfilment item input.quantity)

  unfoldable pub sell : ℕ → StockInput → Action InventoryItemView
  sell id input =
      apply_change id outbound input.quantity input (λ item. plan_sale item input.quantity)

  unfoldable pub receive : ℕ → StockInput → Action InventoryItemView
  receive id input =
      apply_change id inbound input.quantity input (λ item. plan_receipt item input.quantity)

  unfoldable pub accept_return : ℕ → StockInput → Action InventoryItemView
  accept_return id input =
      apply_change id return input.quantity input (λ item. plan_receipt item input.quantity)

  -- `input.quantity` stands for `input.delta`.
  unfoldable pub adjust : ℕ → StockInput → Action InventoryItemView
  adjust id input =
      apply_change id adjustment (abs input.quantity) input
        (λ item. plan_adjustment item input.quantity)

  unfoldable pub apply_bulk_change :
      StockMovementType
      → BulkInput
      → (StockLevels → ℤ → Checked StockLevels)
      → Option IdempotencyKey
      → Action (List InventoryItemView)
  apply_bulk_change type input plan key =
      bind (apply_bulk_stock_change db (line_products input.items) (plan_bulk type input plan) key)
        λ updated. give (views updated)

  unfoldable pub reserve_many : BulkInput → Action (List InventoryItemView)
  unfolding apply_bulk_change
  reserve_many input = apply_bulk_change reservation input plan_reservation none

  unfoldable pub release_many : BulkInput → Option IdempotencyKey → Action (List InventoryItemView)
  unfolding apply_bulk_change
  release_many input key = apply_bulk_change release input plan_release key
