-- ===== src/Inventory/Tests.antt =====
-- The inventory theorems at concrete tables, and runs of the operations.
use practical_microservice.Common.{◌≡◌, refl, ◌⊎◌, List, [], ◌∷◌, none, some, find, arith, ◌↔◌}
use practical_microservice.Common.Int.{ℤ, pos, ◌+ℤ◌, ◌-ℤ◌}
use practical_microservice.Inventory.Errors.{duplicate_operation_error}
use practical_microservice.Inventory.Rules.{
  Checked, returns, StockLevels, assert_invariants, plan_reservation, plan_release, plan_fulfilment,
  plan_sale,
}
use practical_microservice.Inventory.Rules.Laws.{
  plan_release-plan_reservation, plan_fulfilment-plan_reservation,
}
use practical_microservice.Inventory.Tables.{reservation, InventoryItem, Tables, levels}
use practical_microservice.Inventory.Transaction.{
  ok, err, raised, prisma, refused, bind, give, ◌>>=◌,
}
use practical_microservice.Inventory.Statement.{has_id, with_levels}
use practical_microservice.Inventory.Database.{memory}
use practical_microservice.Inventory.Repository.{
  CreateInventoryItemInput, IdempotencyKey, StockChangePlan, apply_stock_change, claim,
  find_targets, write_targets, sort_targets, by_product_id, apply_bulk_stock_change,
}
use practical_microservice.Inventory.Repository
use practical_microservice.Inventory.Repository.Diff.{
  UpdateInventoryItemInput, patch_item, diff_inventory_item,
}
use practical_microservice.Inventory.Repository.Audit.{replay, replay-diff_inventory_item}
use practical_microservice.Inventory.Repository.StockChange.{planned, on_found}
use practical_microservice.Inventory.Repository.Update.{validated}
use practical_microservice.Inventory.Invariant.Defs.{IsConsistent}
use practical_microservice.Inventory.Invariant.Lifecycle.{deleted}
use practical_microservice.Inventory.Service.{
  StockInput, InventoryItemView, change_plan, validate_patch, to_inventory_item_view, remove,
  remove_during, reserve, apply_bulk_change, release_many,
}
use practical_microservice.Inventory.Service.Bulk.{
  BulkInput, plan_bulk, check_lines, check_line, judge, next_levels, conclude,
}
use practical_microservice.Inventory.Requests.{start, next, creates, reserves, Reach-IsConsistent}
use practical_microservice.Inventory.Requests.AllOrNothing.{
  IsAllOrNothing, apply_bulk_change-IsAllOrNothing,
}
use practical_microservice.Inventory.Requests.Verdict.{IsVerdict, apply_bulk_change-IsVerdict}
use practical_microservice.Inventory.Requests.Idempotency.{release_many-release_many}
use practical_microservice.Inventory.Requests.Removal.{
  removed, reserving, remove-Agrees_removed, remove_during-reserving,
}
use practical_microservice.Inventory.Requests.Change.{apply_stock_change-planned, update-validated}

abbrev empty : Tables
empty = record { items = []; movements = []; audit_logs = []; processed = [] }

empty-IsConsistent : IsConsistent empty
empty-IsConsistent = record { keyed = tt; sound = tt; ledger = λ id. refl }

abbrev delivery : CreateInventoryItemInput
delivery = record {
  sku = "MUG-1";
  product_id = 11;
  warehouse = "default";
  quantity = pos 10;
  reorder_level = pos 3;
}

abbrev mug : InventoryItem
mug = record {
  id = 1;
  sku = "MUG-1";
  product_id = 11;
  warehouse = "default";
  quantity = pos 10;
  reserved = pos 0;
  reorder_level = pos 3;
}

abbrev pen : InventoryItem
pen = record {
  id = 2;
  sku = "PEN-7";
  product_id = 12;
  warehouse = "default";
  quantity = pos 5;
  reserved = pos 4;
  reorder_level = pos 0;
}

abbrev stock : Tables
stock = record { items = pen ∷ mug ∷ []; movements = []; audit_logs = []; processed = [] }

abbrev for_order : ℤ → StockInput
for_order n = record { quantity = n; reason = none; reference = some "order-1" }

abbrev cart : ℤ → ℤ → BulkInput
cart mugs pens = record {
  items =
      record { product_id = 11; quantity = mugs }
      ∷ record { product_id = 12; quantity = pens }
      ∷ [];
  reason = none;
  reference = "cart-1";
}

abbrev message : IdempotencyKey
message = record { message_id = 70; type = "inventory.stock.release"; reference = some "cart-1" }

abbrev stocked : Tables
stocked = (reserve memory 1 (for_order (pos 4)) ((Repository.create memory 1 delivery) empty).1).1

Reach-IsConsistent_example : IsConsistent stocked
Reach-IsConsistent_example = Reach-IsConsistent memory empty-IsConsistent (
    next (next start (creates 1 delivery (omega arith) refl)) (reserves 1 (for_order (pos 4)) refl))

apply_bulk_change-IsAllOrNothing_example :
    IsAllOrNothing reservation
      (cart (pos 2) (pos 1))
      plan_reservation
      none
      stock
      (apply_bulk_change memory reservation (cart (pos 2) (pos 1)) plan_reservation none stock)
apply_bulk_change-IsAllOrNothing_example =
    apply_bulk_change-IsAllOrNothing reservation (cart (pos 2) (pos 1)) plan_reservation none stock
      (refl, (refl, tt)) (refl, (refl, tt)) memory

apply_bulk_change-IsVerdict_example :
    IsVerdict reservation
      (cart (pos 11) (pos 1))
      plan_reservation
      none
      stock
      (apply_bulk_change memory reservation (cart (pos 11) (pos 1)) plan_reservation none stock)
    ⊎ (apply_bulk_change memory reservation (cart (pos 11) (pos 1)) plan_reservation none stock
        ≡ (err (prisma refused), stock))
apply_bulk_change-IsVerdict_example =
    apply_bulk_change-IsVerdict reservation (cart (pos 11) (pos 1)) plan_reservation none stock
      (refl, (refl, tt)) (refl, (refl, tt)) refl memory

abbrev pens_back : BulkInput
pens_back = record {
  items = record { product_id = 12; quantity = pos 4 } ∷ [];
  reason = none;
  reference = "cart-1";
}

abbrev released : Tables
released = (release_many memory pens_back (some message) stock).1

abbrev released_views : List InventoryItemView
released_views = to_inventory_item_view (record pen { reserved = pos 0 }) ∷ []

release_many-pens_back :
    release_many memory pens_back (some message) stock ≡ (ok released_views, released)
unfolding release_many apply_bulk_stock_change bind give ◌>>=◌ claim find_targets write_targets
    sort_targets by_product_id plan_bulk check_lines check_line judge next_levels conclude
    plan_release assert_invariants to_inventory_item_view ◌-ℤ◌
release_many-pens_back = refl

release_many-release_many_example :
    (release_many memory (cart (pos 1) (pos 1)) (some message) released
      ≡ (err (raised (duplicate_operation_error 70)), released))
    ⊎ (release_many memory (cart (pos 1) (pos 1)) (some message) released
        ≡ (err (prisma refused), released))
release_many-release_many_example =
    release_many-release_many memory message pens_back (cart (pos 1) (pos 1)) stock released
      released_views (refl, (refl, tt)) (refl, tt) release_many-pens_back

abbrev reserve_four : InventoryItem → Checked StockChangePlan
reserve_four = change_plan reservation (pos 4) (for_order (pos 4)) (λ l. plan_reservation l (pos 4))

apply_stock_change-planned_example :
    (apply_stock_change memory 1 reserve_four stock
      ≡ on_found (some mug) (λ current. planned current (reserve_four current)) stock)
    ⊎ (apply_stock_change memory 1 reserve_four stock ≡ (err (prisma refused), stock))
apply_stock_change-planned_example = apply_stock_change-planned memory 1 reserve_four stock

abbrev recount : UpdateInventoryItemInput
recount = record {
  sku = some "PEN-8";
  product_id = none;
  warehouse = none;
  quantity = some (pos 6);
  reorder_level = none;
}

update-validated_example :
    (Repository.update memory 2 recount (some "ann") (validate_patch recount) stock
      ≡ on_found
          (some pen)
          (λ current. validated 2 recount (some "ann") current (validate_patch recount current))
          stock)
    ⊎ (Repository.update memory 2 recount (some "ann") (validate_patch recount) stock
        ≡ (err (prisma refused), stock))
update-validated_example =
    update-validated memory 2 recount (some "ann") (validate_patch recount) stock

remove-Agrees_removed_example :
    (remove memory 1 stock ≡ removed 1 (some mug) stock)
    ⊎ (remove memory 1 stock ≡ (err (prisma refused), stock))
remove-Agrees_removed_example = remove-Agrees_removed memory 1 stock

abbrev four_held : StockLevels
four_held = record { quantity = pos 10; reserved = pos 4 }

four_held-planned : plan_reservation (levels mug) (pos 4) ≡ returns four_held
unfolding plan_reservation ◌-ℤ◌ ◌+ℤ◌
four_held-planned = refl

remove_during-reserving_example :
    let u = (reserving 1 (for_order (pos 4)) stock).1 in
    (reserving 1 (for_order (pos 4)) stock ≡ (ok tt, u))
    × (find (has_id 1) u.items ≡ some (with_levels four_held mug))
    × (remove_during memory (reserving 1 (for_order (pos 4))) 1 stock ≡ (ok tt, deleted 1 u))
remove_during-reserving_example =
    remove_during-reserving 1 (for_order (pos 4)) stock mug four_held refl four_held-planned
      (ground arith) refl

replay-diff_inventory_item_example :
    (replay (diff_inventory_item pen recount) pen ≡ patch_item recount pen)
    × ((diff_inventory_item pen recount ≡ []) ↔ (patch_item recount pen ≡ pen))
replay-diff_inventory_item_example = replay-diff_inventory_item pen recount

plan_release-plan_reservation_example : plan_release four_held (pos 4) ≡ returns (levels mug)
plan_release-plan_reservation_example =
    plan_release-plan_reservation (levels mug) (pos 4) four_held (ground arith) four_held-planned

plan_fulfilment-plan_reservation_example :
    plan_fulfilment four_held (pos 4) ≡ plan_sale (levels mug) (pos 4)
plan_fulfilment-plan_reservation_example =
    plan_fulfilment-plan_reservation (levels mug) (pos 4) four_held (ground arith) four_held-planned
