-- ===== src/Inventory/Repository/Diff.antt =====
-- `diffInventoryItem` and the PATCH input of
-- services/inventory/src/modules/inventory/inventory.repository.ts.
use practical_microservice.Common.{
  ℕ, Bool, false, List, [], ◌∷◌, ◌++◌, Option, none, some, String, ◌==◌, str_eq, if◌then◌else◌,
}
use practical_microservice.Common.Int.{ℤ, ◌==ℤ◌}
use practical_microservice.Inventory.Tables.{
  InventoryItem, InventoryFieldName, sku_field, product_id_field, warehouse_field, quantity_field,
  reorder_level_field, FieldValue, text, uuid, number, FieldChange,
}
use mathlib.Core.Option

-- `UpdateInventoryItemInput`: an absent field is not touched.
pub record UpdateInventoryItemInput : Type 0 where
  pub sku : Option String
  pub product_id : Option ℕ
  pub warehouse : Option String
  pub quantity : Option ℤ
  pub reorder_level : Option ℤ

abbrev pub or_else {ℓ} : {A : Type ℓ} → Option A → A → A
or_else none a = a
or_else (some b) a = b

-- The row that `update({ data: input })` writes.
abbrev pub patch_item : UpdateInventoryItemInput → InventoryItem → InventoryItem
patch_item input item = record item {
  sku = or_else input.sku item.sku;
  product_id = or_else input.product_id item.product_id;
  warehouse = or_else input.warehouse item.warehouse;
  quantity = or_else input.quantity item.quantity;
  reorder_level = or_else input.reorder_level item.reorder_level;
}

abbrev pub audited_fields : List InventoryFieldName
audited_fields =
    sku_field ∷ product_id_field ∷ warehouse_field ∷ quantity_field ∷ reorder_level_field ∷ []

-- `current[field]`
abbrev pub value_of : InventoryItem → InventoryFieldName → FieldValue
value_of item sku_field = text item.sku
value_of item product_id_field = uuid item.product_id
value_of item warehouse_field = text item.warehouse
value_of item quantity_field = number item.quantity
value_of item reorder_level_field = number item.reorder_level

-- `patch[field]`
abbrev pub patch_of : UpdateInventoryItemInput → InventoryFieldName → Option FieldValue
patch_of patch sku_field = Option.map text patch.sku
patch_of patch product_id_field = Option.map uuid patch.product_id
patch_of patch warehouse_field = Option.map text patch.warehouse
patch_of patch quantity_field = Option.map number patch.quantity
patch_of patch reorder_level_field = Option.map number patch.reorder_level

-- `next === current[field]`
unfoldable pub same_value : FieldValue → FieldValue → Bool
same_value (text a) (text b) = str_eq a b
same_value (uuid a) (uuid b) = a == b
same_value (number a) (number b) = a ==ℤ b
same_value _ _ = false

-- One round of the loop.
unfoldable pub field_change : InventoryFieldName → FieldValue → Option FieldValue → List FieldChange
unfolding same_value
field_change field current none = []
field_change field current (some next) =
    if same_value next current
    then []
    else record { field = field; old_value = current; new_value = next } ∷ []

diff_from : List InventoryFieldName → InventoryItem → UpdateInventoryItemInput → List FieldChange
unfolding field_change
diff_from [] current patch = []
diff_from (field ∷ fields) current patch =
    field_change field (value_of current field) (patch_of patch field)
    ++ diff_from fields current patch

unfoldable pub diff_inventory_item : InventoryItem → UpdateInventoryItemInput → List FieldChange
unfolding diff_from
diff_inventory_item = diff_from audited_fields
