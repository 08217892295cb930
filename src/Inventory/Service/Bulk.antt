-- ===== src/Inventory/Service/Bulk.antt =====
-- The planner of a bulk transition: `applyBulkChange` of
-- services/inventory/src/modules/inventory/inventory.service.ts.
pub mod Planning
pub mod Exact
use practical_microservice.Common.{ℕ, List, [], ◌∷◌, Option, none, some, String}
use practical_microservice.Common.Int.{ℤ}
use practical_microservice.Inventory.Errors.{ErrorDetail, not_found, conflict_error, error_code}
use practical_microservice.Inventory.Rules.{
  Checked, ◌>>=◌, ◌>>◌, returns, throws, StockLevels, available_stock, assert_invariants,
}
use practical_microservice.Inventory.Tables.{StockMovementType, InventoryItem, levels}
use practical_microservice.Inventory.Repository.{BulkStockChangePlan, ItemMap}

-- `BulkStockLine`
pub record BulkStockLine : Type 0 where
  pub product_id : ℕ
  pub quantity : ℤ

-- `BulkReserveStockInput`, which the release takes too.
pub record BulkInput : Type 0 where
  pub items : List BulkStockLine
  pub reason : Option String
  pub reference : String

abbrev pub line_products : List BulkStockLine → List ℕ
line_products [] = []
line_products (line ∷ lines) = line.product_id ∷ line_products lines

-- What the loop pushes for one line: a plan or a failure.
pub data Verdict : Type 0 where
  planned : BulkStockChangePlan → Verdict
  failed : ErrorDetail → Verdict

-- `plan`, then `assertInvariants`.
unfoldable pub next_levels :
    (StockLevels → ℤ → Checked StockLevels) → StockLevels → ℤ → Checked StockLevels
next_levels plan item quantity = do next ← plan item quantity; assert_invariants next; returns next

-- What the `try` and its `catch` push for a line that has a row.
unfoldable pub judge :
    StockMovementType → BulkInput → BulkStockLine → InventoryItem → Checked StockLevels → Verdict
judge type input line item (returns next) = planned (record {
  product_id = line.product_id;
  next = next;
  movement = record {
    type = type;
    quantity = line.quantity;
    reason = input.reason;
    reference = some input.reference;
  };
})
judge type input line item (throws error) = failed (record {
  product_id = line.product_id;
  code = error_code error;
  requested = line.quantity;
  available = some (available_stock (levels item));
  reserved = some item.reserved;
})

-- `if (failures.length > 0) throw new ConflictError(…, failures); return plans;`
unfoldable pub conclude :
    List BulkStockChangePlan × List ErrorDetail → Checked (List BulkStockChangePlan)
conclude (plans, []) = returns plans
conclude (plans, detail ∷ failures) = throws (conflict_error (detail ∷ failures))

module _ (type : StockMovementType) (input : BulkInput)
    (plan : StockLevels → ℤ → Checked StockLevels) where
  -- One round of the loop over the lines.
  unfoldable pub check_line : ItemMap → BulkStockLine → Verdict
  unfolding judge next_levels
  check_line by_product line = elim (by_product line.product_id) [
    | none ↦ failed (record {
      product_id = line.product_id;
      code = not_found;
      requested = line.quantity;
      available = none;
      reserved = none;
    })
    | some item ↦ judge type input line item (next_levels plan (levels item) line.quantity)
  ]

  -- `plans` and `failures` when the loop ends.
  unfoldable pub check_lines :
      ItemMap → List BulkStockLine → List BulkStockChangePlan × List ErrorDetail
  check_lines by_product [] = ([], [])
  check_lines by_product (line ∷ lines) =
      let (plans, failures) = check_lines by_product lines in
      elim (check_line by_product line) [
        | planned next ↦ (next ∷ plans, failures)
        | failed detail ↦ (plans, detail ∷ failures)
      ]

  unfoldable pub plan_bulk : ItemMap → Checked (List BulkStockChangePlan)
  unfolding conclude
  plan_bulk by_product = conclude (check_lines by_product input.items)
