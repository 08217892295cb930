-- ===== src/Inventory/Statement.antt =====
-- What each statement of the database client does to the tables, as its documentation says.
use practical_microservice.Common.{
  ℕ, Bool, false, ◌||◌, not, ◌&&◌, List, [], ◌∷◌, ◌++◌, Option, none, some, String, ◌==◌, str_eq,
  if◌then◌else◌, find, filter, any,
}
use practical_microservice.Inventory.Rules.{StockLevels}
use practical_microservice.Inventory.Tables.{
  InventoryItem, StockMovementHistory, InventoryAuditLog, ProcessedMessage, put,
}
use practical_microservice.Inventory.Transaction.{
  Tx, ok, err, prisma, unique_violation, record_not_found,
}

abbrev pub has_id : ℕ → InventoryItem → Bool
has_id id item = item.id == id

abbrev pub has_product : ℕ → InventoryItem → Bool
has_product product item = item.product_id == product

abbrev pub has_sku : String → InventoryItem → Bool
has_sku sku item = str_eq item.sku sku

abbrev pub contains : List ℕ → ℕ → Bool
contains [] n = false
contains (x ∷ xs) n = n == x || contains xs n

abbrev pub find_unique : (InventoryItem → Bool) → Tx (Option InventoryItem)
find_unique test t = ok (find test t.items, t)

abbrev pub find_many : List ℕ → Tx (List InventoryItem)
find_many products t = ok (filter (λ i. contains products i.product_id) t.items, t)

abbrev pub clashes : InventoryItem → InventoryItem → Bool
clashes new old = not (old.id == new.id) && (has_sku new.sku old || has_product new.product_id old)

abbrev pub create_item : InventoryItem → Tx InventoryItem
create_item new t =
    if any (has_id new.id) t.items || any (clashes new) t.items
    then err (prisma unique_violation)
    else ok (new, record t { items = new ∷ t.items })

abbrev pub update_item : ℕ → (InventoryItem → InventoryItem) → Tx InventoryItem
update_item id patch t = elim (find (has_id id) t.items) [
  | none ↦ err (prisma record_not_found)
  | some old ↦
      if any (clashes (patch old)) t.items
      then err (prisma unique_violation)
      else ok (patch old, record t { items = put (patch old) t.items })
]

abbrev pub with_levels : StockLevels → InventoryItem → InventoryItem
with_levels next old = record old { quantity = next.quantity; reserved = next.reserved }

abbrev pub update_levels : ℕ → StockLevels → Tx InventoryItem
update_levels id next t = elim (find (has_id id) t.items) [
  | none ↦ err (prisma record_not_found)
  | some old ↦ ok (with_levels next old, record t { items = put (with_levels next old) t.items })
]

-- The rows of the history go with their item (`onDelete: Cascade`).
abbrev pub delete_item : ℕ → Tx (Unit {0})
delete_item id t = elim (find (has_id id) t.items) [
  | none ↦ err (prisma record_not_found)
  | some old ↦ ok (
    tt,
    record t {
      items = filter (λ i. not (has_id id i)) t.items;
      movements = filter (λ m. not (m.item_id == id)) t.movements;
      audit_logs = filter (λ l. not (l.item_id == id)) t.audit_logs;
    },
  )
]

abbrev pub create_movements : List StockMovementHistory → Tx (Unit {0})
create_movements rows t = ok (tt, record t { movements = rows ++ t.movements })

abbrev pub create_audit_logs : List InventoryAuditLog → Tx (Unit {0})
create_audit_logs rows t = ok (tt, record t { audit_logs = rows ++ t.audit_logs })

abbrev pub create_processed : ProcessedMessage → Tx (Unit {0})
create_processed row t =
    if any (λ (p : ProcessedMessage). p.message_id == row.message_id) t.processed
    then err (prisma unique_violation)
    else ok (tt, record t { processed = row ∷ t.processed })
