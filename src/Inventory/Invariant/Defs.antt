-- ===== src/Inventory/Invariant/Defs.antt =====
-- The invariant of the inventory tables.
use practical_microservice.Common.{
  ℕ, ◌≡◌, ◌⊎◌, List, [], ◌∷◌, Option, none, some, ◌==◌, find, filter, All,
}
use practical_microservice.Common.Int.{ℤ, pos, ◌+ℤ◌, ◌-ℤ◌}
pub use practical_microservice.Inventory.Rules.Laws.{IsSound}
use practical_microservice.Inventory.Tables.{
  StockMovementType, inbound, outbound, reservation, release, return, adjustment, InventoryItem,
  levels, StockMovementHistory, Tables,
}
use practical_microservice.Inventory.Statement.{has_id}
use practical_microservice.Inventory.Rows.{IsKeyed}

abbrev pub IsSoundItem : InventoryItem → Type 0
IsSoundItem item = IsSound (levels item)

-- How a movement takes the on-hand quantity from one value to the next. A row of an adjustment
-- holds only the size of the change.
abbrev pub Explains : StockMovementType → ℤ → ℤ → ℤ → Type 0
Explains inbound changed last next = next ≡ last +ℤ changed
Explains return changed last next = next ≡ last +ℤ changed
Explains outbound changed last next = next ≡ last -ℤ changed
Explains reservation changed last next = next ≡ last
Explains release changed last next = next ≡ last
Explains adjustment changed last next = (next ≡ last +ℤ changed) ⊎ (next ≡ last -ℤ changed)

-- The rows of one item, newest first, lead from nothing to its quantity.
abbrev pub Reconciles : List StockMovementHistory → ℤ → Type 0
Reconciles [] quantity = quantity ≡ pos 0
Reconciles (m ∷ rows) quantity =
    Explains m.type m.quantity_changed m.last_quantity quantity × Reconciles rows m.last_quantity

abbrev pub rows_of : ℕ → List StockMovementHistory → List StockMovementHistory
rows_of id = filter (λ m. m.item_id == id)

-- An item that is not there has no rows.
abbrev pub IsLedgered : Option InventoryItem → List StockMovementHistory → Type 0
IsLedgered none rows = rows ≡ []
IsLedgered (some item) rows = Reconciles rows item.quantity

pub record IsConsistent (t : Tables) : Type 0 where
  pub keyed : IsKeyed t.items
  pub sound : All IsSoundItem t.items
  pub ledger : (id : ℕ) → IsLedgered (find (has_id id) t.items) (rows_of id t.movements)
