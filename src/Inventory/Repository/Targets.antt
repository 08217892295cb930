-- ===== src/Inventory/Repository/Targets.antt =====
-- The loop of `applyBulkStockChange` that writes the targets, in primary-key order.
use practical_microservice.Common.{
  ℕ, ◌≡◌, refl, Bool, List, [], ◌∷◌, map, Option, none, some, ◌==◌, ltb, find, All, arith, inl, inr,
  Bool-cases, if◌then◌else◌,
}
use practical_microservice.Inventory.Tables.{InventoryItem, StockMovementHistory, Tables, put}
use practical_microservice.Inventory.Transaction.{ok, ◌>>=◌}
use practical_microservice.Inventory.Statement.{has_id, with_levels}
use practical_microservice.Inventory.Database.{memory}
use practical_microservice.Inventory.Repository.{
  Target, movement_row, insert_target, sort_targets, write_targets,
}
use practical_microservice.Inventory.Rows.{IsRow, find-put}

abbrev pub aims_at : ℕ → Target → Bool
aims_at k x = x.item.id == k

-- No row is written twice.
abbrev pub IsDistinct : List Target → Type 0
IsDistinct [] = Unit
IsDistinct (x ∷ targets) = (find (aims_at x.item.id) targets ≡ none) × IsDistinct targets

find-insert_target :
    (k : ℕ) (a : Target) (targets : List Target)
    → find (aims_at k) (insert_target a targets)
      ≡ (if aims_at k a then some a else find (aims_at k) targets)
unfolding insert_target
find-insert_target k a [] = ground arith
find-insert_target k a (b ∷ targets) = ground (arith, find-insert_target k a targets)

-- Sorting loses no target.
pub find-sort_targets :
    (k : ℕ) (targets : List Target)
    → find (aims_at k) (sort_targets targets) ≡ find (aims_at k) targets
unfolding sort_targets
find-sort_targets k [] = refl
find-sort_targets k (a ∷ targets) =
    ground (arith, find-insert_target k a (sort_targets targets), find-sort_targets k targets)

insert_target-IsDistinct :
    (a : Target) (targets : List Target)
    → find (aims_at a.item.id) targets ≡ none
    → IsDistinct targets
    → IsDistinct (insert_target a targets)
unfolding insert_target
insert_target-IsDistinct a [] fresh h = (refl, tt)
insert_target-IsDistinct a (b ∷ targets) fresh h =
    ground (arith, insert_target-IsDistinct a targets, find-insert_target b.item.id a targets)

pub sort_targets-IsDistinct :
    (targets : List Target) → IsDistinct targets → IsDistinct (sort_targets targets)
unfolding sort_targets
sort_targets-IsDistinct [] h = tt
sort_targets-IsDistinct (a ∷ targets) h =
    let fresh : find (aims_at a.item.id) (sort_targets targets) ≡ none =
      ground (arith, find-sort_targets a.item.id targets) in
    insert_target-IsDistinct a (sort_targets targets) fresh (sort_targets-IsDistinct targets h.1)

module _ (P : Target → Type 0) where
  insert_target-All :
      (a : Target) (targets : List Target) → P a → All P targets → All P (insert_target a targets)
  unfolding insert_target
  insert_target-All a [] p h = (p, tt)
  insert_target-All a (b ∷ targets) p h = elim (Bool-cases (ltb b.item.id a.item.id)) [
    | inl e ↦ rw (e, insert_target) (h.0, insert_target-All a targets p h.1)
    | inr e ↦ rw (e, insert_target) (p, h)
  ]

  pub sort_targets-All : (targets : List Target) → All P targets → All P (sort_targets targets)
  unfolding sort_targets
  sort_targets-All [] h = tt
  sort_targets-All (a ∷ targets) h =
      insert_target-All a (sort_targets targets) h.0 (sort_targets-All targets h.1)

abbrev pub row_after : Target → InventoryItem
row_after x = with_levels x.next.next x.item

abbrev pub ledger_row : Target → StockMovementHistory
ledger_row x = movement_row x.item.id x.item.quantity x.next.movement

abbrev pub put_all : List Target → List InventoryItem → List InventoryItem
put_all [] items = items
put_all (x ∷ targets) items = put_all targets (put (row_after x) items)

-- Each target is for a row of the table.
abbrev pub AreRows : List InventoryItem → List Target → Type 0
AreRows items = All (λ x. IsRow items x.item)

put-AreRows :
    (new : InventoryItem) (items : List InventoryItem) (targets : List Target)
    → find (aims_at new.id) targets ≡ none
    → AreRows items targets
    → AreRows (put new items) targets
put-AreRows new items [] fresh h = tt
put-AreRows new items (x ∷ targets) fresh h =
    ground (arith, find-put x.item.id new items, put-AreRows new items targets)

pub write_targets-eq :
    (targets : List Target) (t : Tables)
    → IsDistinct targets
    → AreRows t.items targets
    → write_targets memory targets t
      ≡ ok (
        (map row_after targets, map ledger_row targets),
        record t { items = put_all targets t.items },
      )
unfolding write_targets ◌>>=◌
write_targets-eq [] t d h = refl
write_targets-eq (x ∷ targets) t d h = ground (
  arith,
  write_targets-eq targets (record t { items = put (row_after x) t.items }) d.1,
  put-AreRows (row_after x) t.items targets,
)

abbrev pub after_targets : Option Target → Option InventoryItem → Option InventoryItem
after_targets none before = before
after_targets (some x) before = some (row_after x)

-- A row that a target names has the target's levels; every other row is as before.
pub find-put_all :
    (k : ℕ) (targets : List Target) (items : List InventoryItem)
    → IsDistinct targets
    → AreRows items targets
    → find (has_id k) (put_all targets items)
      ≡ after_targets (find (aims_at k) targets) (find (has_id k) items)
find-put_all k [] items d h = refl
find-put_all k (x ∷ targets) items d h = ground (
  arith,
  find-put_all k targets (put (row_after x) items) d.1,
  put-AreRows (row_after x) items targets,
  find-put k (row_after x) items,
)
