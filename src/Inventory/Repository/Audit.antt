-- ===== src/Inventory/Repository/Audit.antt =====
-- What the diff of a PATCH says: services/inventory/src/modules/inventory/inventory.repository.ts.
use mathlib.Core.Option
use practical_microservice.Common.{
  ℕ, ◌≡◌, refl, ◌↔◌, List, [], ◌∷◌, ◌++◌, Option, none, some, String, eq_iff, arith,
}
use practical_microservice.Common.Int.{ℤ, eq_of_parts}
use practical_microservice.Inventory.Tables.{
  InventoryItem, InventoryFieldName, sku_field, product_id_field, warehouse_field, quantity_field,
  reorder_level_field, FieldValue, text, uuid, number, FieldChange,
}
use practical_microservice.Inventory.Repository.Diff.{
  UpdateInventoryItemInput, patch_item, or_else, field_change, diff_inventory_item,
}

-- Puts the new value of an audit row into a row of the table.
abbrev pub assign : InventoryFieldName → FieldValue → InventoryItem → InventoryItem
assign sku_field (text v) item = record item { sku = v }
assign product_id_field (uuid v) item = record item { product_id = v }
assign warehouse_field (text v) item = record item { warehouse = v }
assign quantity_field (number v) item = record item { quantity = v }
assign reorder_level_field (number v) item = record item { reorder_level = v }
assign _ _ item = item

abbrev pub replay : List FieldChange → InventoryItem → InventoryItem
replay [] item = item
replay (c ∷ changes) item = replay changes (assign c.field c.new_value item)

pub replay-append :
    (xs ys : List FieldChange) (item : InventoryItem)
    → replay (xs ++ ys) item ≡ replay ys (replay xs item)
replay-append [] ys item = refl
replay-append (x ∷ xs) ys item = replay-append xs ys (assign x.field x.new_value item)

-- One round of the loop, for each field.
replay_sku :
    (item : InventoryItem) (cur : String) (next : Option String)
    → item.sku ≡ cur
    → replay (field_change sku_field (text cur) (Option.map text next)) item
      ≡ record item { sku = or_else next cur }
unfolding field_change
replay_sku item cur none h = ground arith
replay_sku item cur (some next) h = ground (arith, eq_iff next cur)

sku-nil_iff :
    (cur : String) (next : Option String)
    → (field_change sku_field (text cur) (Option.map text next) ≡ []) ↔ (or_else next cur ≡ cur)
unfolding field_change
sku-nil_iff cur none = ground arith
sku-nil_iff cur (some next) = ground (arith, eq_iff next cur)

replay_product_id :
    (item : InventoryItem) (cur : ℕ) (next : Option ℕ)
    → item.product_id ≡ cur
    → replay (field_change product_id_field (uuid cur) (Option.map uuid next)) item
      ≡ record item { product_id = or_else next cur }
unfolding field_change
replay_product_id item cur none h = ground arith
replay_product_id item cur (some next) h = ground arith

product_id-nil_iff :
    (cur : ℕ) (next : Option ℕ)
    → (field_change product_id_field (uuid cur) (Option.map uuid next) ≡ [])
      ↔ (or_else next cur ≡ cur)
unfolding field_change
product_id-nil_iff cur none = ground arith
product_id-nil_iff cur (some next) = ground arith

replay_warehouse :
    (item : InventoryItem) (cur : String) (next : Option String)
    → item.warehouse ≡ cur
    → replay (field_change warehouse_field (text cur) (Option.map text next)) item
      ≡ record item { warehouse = or_else next cur }
unfolding field_change
replay_warehouse item cur none h = ground arith
replay_warehouse item cur (some next) h = ground (arith, eq_iff next cur)

warehouse-nil_iff :
    (cur : String) (next : Option String)
    → (field_change warehouse_field (text cur) (Option.map text next) ≡ [])
      ↔ (or_else next cur ≡ cur)
unfolding field_change
warehouse-nil_iff cur none = ground arith
warehouse-nil_iff cur (some next) = ground (arith, eq_iff next cur)

replay_quantity :
    (item : InventoryItem) (cur : ℤ) (next : Option ℤ)
    → item.quantity ≡ cur
    → replay (field_change quantity_field (number cur) (Option.map number next)) item
      ≡ record item { quantity = or_else next cur }
unfolding field_change
replay_quantity item cur none h = ground arith
replay_quantity item cur (some next) h = ground (arith, eq_of_parts next cur)

quantity-nil_iff :
    (cur : ℤ) (next : Option ℤ)
    → (field_change quantity_field (number cur) (Option.map number next) ≡ [])
      ↔ (or_else next cur ≡ cur)
unfolding field_change
quantity-nil_iff cur none = ground arith
quantity-nil_iff cur (some next) = ground (arith, eq_of_parts next cur)

replay_reorder_level :
    (item : InventoryItem) (cur : ℤ) (next : Option ℤ)
    → item.reorder_level ≡ cur
    → replay (field_change reorder_level_field (number cur) (Option.map number next)) item
      ≡ record item { reorder_level = or_else next cur }
unfolding field_change
replay_reorder_level item cur none h = ground arith
replay_reorder_level item cur (some next) h = ground (arith, eq_of_parts next cur)

reorder_level-nil_iff :
    (cur : ℤ) (next : Option ℤ)
    → (field_change reorder_level_field (number cur) (Option.map number next) ≡ [])
      ↔ (or_else next cur ≡ cur)
unfolding field_change
reorder_level-nil_iff cur none = ground arith
reorder_level-nil_iff cur (some next) = ground (arith, eq_of_parts next cur)

module _ {A : Type 0} where
  append-eq-nil_iff : (xs ys : List A) → (xs ++ ys ≡ []) ↔ ((xs ≡ []) × (ys ≡ []))
  append-eq-nil_iff [] ys = ground arith
  append-eq-nil_iff (x ∷ xs) ys = ground arith

-- The audit rows of a PATCH, replayed on the old row in order, give exactly the row that is
-- written; and there is no audit row just when the patch changes nothing.
pub replay-diff_inventory_item :
    (item : InventoryItem) (input : UpdateInventoryItemInput)
    → (replay (diff_inventory_item item input) item ≡ patch_item input item)
      × ((diff_inventory_item item input ≡ []) ↔ (patch_item input item ≡ item))
unfolding diff_inventory_item
replay-diff_inventory_item item input =
    let one = record item { sku = or_else input.sku item.sku } in
    let two = record one { product_id = or_else input.product_id item.product_id } in
    let three = record two { warehouse = or_else input.warehouse item.warehouse } in
    let four = record three { quantity = or_else input.quantity item.quantity } in
    (
      rw (
        replay-append,
        replay_sku item item.sku input.sku refl,
        replay-append,
        replay_product_id one item.product_id input.product_id refl,
        replay-append,
        replay_warehouse two item.warehouse input.warehouse refl,
        replay-append,
        replay_quantity three item.quantity input.quantity refl,
        replay-append,
        replay_reorder_level four item.reorder_level input.reorder_level refl,
      ),
      simp
          (
            append-eq-nil_iff, sku-nil_iff, product_id-nil_iff, warehouse-nil_iff, quantity-nil_iff,
            reorder_level-nil_iff,
          )
          (ground arith),
    )
