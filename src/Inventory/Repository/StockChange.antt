-- ===== src/Inventory/Repository/StockChange.antt =====
-- What `applyStockChange` does, on every branch.
use practical_microservice.Common.{
  ℕ, ◌≡◌, List, [], ◌∷◌, Option, none, some, find, arith, inl, inr, Option-cases,
}
use practical_microservice.Inventory.Errors.{not_found_error}
use practical_microservice.Inventory.Rules.{Checked, returns, throws, Checked-cases}
use practical_microservice.Inventory.Tables.{InventoryItem, Tables, put}
use practical_microservice.Inventory.Transaction.{Action, ok, err, raised, ◌>>=◌}
use practical_microservice.Inventory.Statement.{has_id, with_levels}
use practical_microservice.Inventory.Database.{memory}
use practical_microservice.Inventory.Repository.{
  StockChangePlan, movement_row, or_not_found, find_by_id, apply_stock_change,
}

-- The item's new levels, with one ledger row that remembers the old quantity.
abbrev pub changed : InventoryItem → StockChangePlan → Tables → Tables
changed current plan t = record t {
  items = put (with_levels plan.next current) t.items;
  movements = movement_row current.id current.quantity plan.movement ∷ t.movements;
}

abbrev pub planned : InventoryItem → Checked StockChangePlan → Action InventoryItem
planned current (returns plan) t = (ok (with_levels plan.next current), changed current plan t)
planned current (throws e) t = (err (raised e), t)

abbrev pub on_found :
    Option InventoryItem → (InventoryItem → Action InventoryItem) → Action InventoryItem
on_found none f t = (err (raised not_found_error), t)
on_found (some current) f t = f current t

pub id-find :
    (id : ℕ) (items : List InventoryItem) (item : InventoryItem)
    → find (has_id id) items ≡ some item
    → item.id ≡ id
id-find id [] item e = cc
id-find id (x ∷ items) item e = ground (arith, id-find id items item)

pub apply_stock_change-eq :
    (id : ℕ) (plan : InventoryItem → Checked StockChangePlan) (t : Tables)
    → apply_stock_change memory id plan t
      ≡ on_found (find (has_id id) t.items) (λ current. planned current (plan current)) t
unfolding apply_stock_change find_by_id or_not_found ◌>>=◌
apply_stock_change-eq id plan t = elim (Option-cases (find (has_id id) t.items)) [
  | inl e ↦ rw e
  | inr (current, e) ↦ elim (Checked-cases (plan current)) [
    | inl (next, p) ↦ ground (arith, id-find id t.items current e)
    | inr (error, p) ↦ ground arith
  ]
]
