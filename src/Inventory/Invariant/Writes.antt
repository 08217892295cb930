-- ===== src/Inventory/Invariant/Writes.antt =====
-- The invariant under one write of a row with its ledger row.
use practical_microservice.Common.{
  ℕ, ◌≡◌, refl, Option, some, List, ◌∷◌, some, ◌==◌, find, arith, inl, inr, Bool-cases, true, false,
}
use practical_microservice.Common.Int.{ℤ}
use practical_microservice.Inventory.Rules.{StockLevels}
use practical_microservice.Inventory.Tables.{InventoryItem, StockMovementHistory, Tables, put}
use practical_microservice.Inventory.Statement.{has_id, with_levels}
use practical_microservice.Inventory.Repository.{StockChangePlan, PlannedMovement, movement_row}
use practical_microservice.Inventory.Repository.StockChange.{changed}
use practical_microservice.Inventory.Rows.{IsRow, put-IsKeyed, put-All, find-put}
use practical_microservice.Inventory.Invariant.Defs.{
  IsSound, IsSoundItem, Explains, rows_of, IsLedgered, IsConsistent,
}

-- A plan that keeps the levels sound and whose movement tells how the quantity changed.
abbrev pub IsFair : ℤ → StockLevels → PlannedMovement → Type 0
IsFair last next movement =
    IsSound next × Explains movement.type movement.quantity last next.quantity

pub rows_of_self :
    (id : ℕ) (m : StockMovementHistory) (ms : List StockMovementHistory)
    → (m.item_id == id) ≡ true
    → rows_of id (m ∷ ms) ≡ m ∷ rows_of id ms
rows_of_self id m ms e = ground arith

pub rows_of_other :
    (id : ℕ) (m : StockMovementHistory) (ms : List StockMovementHistory)
    → (m.item_id == id) ≡ false
    → rows_of id (m ∷ ms) ≡ rows_of id ms
rows_of_other id m ms e = ground arith

-- The table of items and the ledger rows of an id, under a write of the row `old`.
module _ (items : List InventoryItem) (ms : List StockMovementHistory) (old new : InventoryItem)
    (row : IsRow items old) (same_id : new.id ≡ old.id) where
  find-put_cases :
      (P : Option InventoryItem → Type 0) (k : ℕ)
      → ((old.id == k) ≡ true → find (has_id k) items ≡ some old → P (some new))
      → ((old.id == k) ≡ false → P (find (has_id k) items))
      → P (find (has_id k) (put new items))
  find-put_cases P k self other = elim (Bool-cases (old.id == k)) [
    | inl e ↦
        let found : find (has_id k) items ≡ some old = ground arith in
        let written : find (has_id k) (put new items) ≡ some new =
          ground (arith, find-put k new items) in
        rw written (self e found)
    | inr e ↦
        let written : find (has_id k) (put new items) ≡ find (has_id k) items =
          ground (arith, find-put k new items) in
        rw written (other e)
  ]

  pub put_kept :
      new.quantity ≡ old.quantity
      → (k : ℕ) → IsLedgered (find (has_id k) items) (rows_of k ms)
      → IsLedgered (find (has_id k) (put new items)) (rows_of k ms)
  put_kept same k h =
      find-put_cases (λ o. IsLedgered o (rows_of k ms)) k (λ e found. rw same (rw found at h))
        (λ e. h)

  pub put_moved :
      (m : StockMovementHistory)
      → m.item_id ≡ old.id
      → m.last_quantity ≡ old.quantity
      → Explains m.type m.quantity_changed m.last_quantity new.quantity
      → (k : ℕ) → IsLedgered (find (has_id k) items) (rows_of k ms)
      → IsLedgered (find (has_id k) (put new items)) (rows_of k (m ∷ ms))
  put_moved m own last explained k h =
      find-put_cases (λ o. IsLedgered o (rows_of k (m ∷ ms))) k
        (λ e found. rw (rows_of_self k m ms (ground arith)) (explained, rw last (rw found at h)))
        (λ e. rw (rows_of_other k m ms (ground arith)) h)

module _ (t : Tables) (item : InventoryItem) (plan : StockChangePlan) (row : IsRow t.items item)
    (fair : IsFair item.quantity plan.next plan.movement) where
  pub changed-IsConsistent : IsConsistent t → IsConsistent (changed item plan t)
  changed-IsConsistent c = record {
    keyed = put-IsKeyed (with_levels plan.next item) t.items c.keyed;
    sound = put-All IsSoundItem (with_levels plan.next item) t.items fair.0 c.sound;
    ledger = λ id.
        put_moved t.items t.movements item (with_levels plan.next item) row refl
          (movement_row item.id item.quantity plan.movement) refl refl fair.1 id (c.ledger id);
  }
