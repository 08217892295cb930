-- ===== src/Inventory/Invariant/Lifecycle.antt =====
-- The invariant when a row comes and when it goes.
use practical_microservice.Common.{
  ℕ, ◌≡◌, refl, true, false, not, ◌||◌, List, [], ◌∷◌, none, some, ◌==◌, find, filter, any, arith,
  inl, inr, Bool-cases, if◌then◌else◌, is_some,
}
use practical_microservice.Common.Int.{pos, ◌≤ℤ◌, int_laws, ltb_ℤ, not_ltb_ℤ}
use practical_microservice.Inventory.Tables.{InventoryItem, StockMovementHistory, Tables}
use practical_microservice.Inventory.Transaction.{
  ok, err, prisma, unique_violation, record_not_found, ◌>>=◌,
}
use practical_microservice.Inventory.Statement.{has_id, clashes}
use practical_microservice.Inventory.Database.{memory}
use practical_microservice.Inventory.Repository.{
  CreateInventoryItemInput, movement_row, initial_stock, create, delete,
}
use practical_microservice.Inventory.Rows.{
  filter-IsKeyed, filter-All, find-filter_ne, find-none_of_any,
}
use practical_microservice.Inventory.Invariant.Defs.{IsSoundItem, Reconciles, rows_of, IsLedgered}
use practical_microservice.Inventory.Invariant.Writes.{rows_of_self, rows_of_other}
use practical_microservice.Inventory.Invariant.Keeps.{Keeps}

-- The row that `create` inserts.
abbrev pub new_item : ℕ → CreateInventoryItemInput → InventoryItem
new_item id input = record {
  id = id;
  sku = input.sku;
  product_id = input.product_id;
  warehouse = input.warehouse;
  quantity = input.quantity;
  reserved = pos 0;
  reorder_level = input.reorder_level;
}

abbrev pub created : InventoryItem → Tables → Tables
created new t = record t {
  items = new ∷ t.items;
  movements =
      if ltb_ℤ (pos 0) new.quantity
      then movement_row new.id (pos 0) (initial_stock new) ∷ t.movements
      else t.movements;
}

pub create-eq :
    (id : ℕ) (input : CreateInventoryItemInput) (t : Tables)
    → create memory id input t ≡ (
        if any (has_id id) t.items || any (clashes (new_item id input)) t.items
        then (err (prisma unique_violation), t)
        else (ok (new_item id input), created (new_item id input) t))
unfolding create ◌>>=◌
create-eq id input t = ground arith

module _ (new : InventoryItem) (items : List InventoryItem) (k : ℕ) where
  find-cons_self : (new.id == k) ≡ true → find (has_id k) (new ∷ items) ≡ some new
  find-cons_self e = ground arith

  find-cons_other : (new.id == k) ≡ false → find (has_id k) (new ∷ items) ≡ find (has_id k) items
  find-cons_other e = ground arith

-- Nothing is on hand before the first row.
Reconciles-nothing : (rows : List StockMovementHistory) → rows ≡ [] → Reconciles rows (pos 0)
Reconciles-nothing rows e = rw e refl

created-IsLedgered :
    (new : InventoryItem) (t : Tables) (k : ℕ)
    → pos 0 ≤ℤ new.quantity
    → find (has_id new.id) t.items ≡ none
    → IsLedgered (find (has_id k) t.items) (rows_of k t.movements)
    → IsLedgered (find (has_id k) (created new t).items) (rows_of k (created new t).movements)
created-IsLedgered new t k positive fresh h = elim (Bool-cases (new.id == k)) [
  | inl self ↦
      let missing : find (has_id k) t.items ≡ none = ground arith in
      let empty : rows_of k t.movements ≡ [] = rw missing at h in
      rw (find-cons_self new t.items k self) (elim (Bool-cases (ltb_ℤ (pos 0) new.quantity)) [
        | inl e ↦
            rw
              (e, rows_of_self k (movement_row new.id (pos 0) (initial_stock new)) t.movements self)
              (omega int_laws, Reconciles-nothing (rows_of k t.movements) empty)
        | inr e ↦
            let zero_stock : new.quantity ≡ pos 0 =
              omega (int_laws, not_ltb_ℤ (pos 0) new.quantity e) in
            rw e (rw zero_stock (Reconciles-nothing (rows_of k t.movements) empty))
      ])
  | inr other ↦
      rw (find-cons_other new t.items k other) (elim (Bool-cases (ltb_ℤ (pos 0) new.quantity)) [
        | inl e ↦
            rw
              (
                e,
                rows_of_other k (movement_row new.id (pos 0) (initial_stock new)) t.movements other,
              )
              h
        | inr e ↦ rw e h
      ])
]

pub create-Keeps :
    (id : ℕ) (input : CreateInventoryItemInput)
    → pos 0 ≤ℤ input.quantity
    → Keeps (create memory id input)
create-Keeps id input positive = record {
  at = λ t c.
      let new = new_item id input in
      rw (create-eq id input t)
        (elim (Bool-cases (any (has_id id) t.items || any (clashes new) t.items)) [
          | inl e ↦ rw e c
          | inr e ↦
              let fresh : find (has_id id) t.items ≡ none =
                find-none_of_any id t.items (ground arith) in
              rw e (record {
                keyed = (fresh, c.keyed);
                sound = ((omega arith, positive), c.sound);
                ledger = λ k. created-IsLedgered new t k positive fresh (c.ledger k);
              })
        ]);
}

rows_of-filter :
    (k id : ℕ) (ms : List StockMovementHistory)
    → rows_of k (filter (λ m. not (m.item_id == id)) ms) ≡ (if k == id then [] else rows_of k ms)
rows_of-filter k id [] = ground arith
rows_of-filter k id (m ∷ ms) = ground (arith, rows_of-filter k id ms)

abbrev pub deleted : ℕ → Tables → Tables
deleted id t = record t {
  items = filter (λ i. not (has_id id i)) t.items;
  movements = filter (λ m. not (m.item_id == id)) t.movements;
  audit_logs = filter (λ l. not (l.item_id == id)) t.audit_logs;
}

pub delete-eq :
    (id : ℕ) (t : Tables)
    → delete memory id t ≡ (
        if is_some (find (has_id id) t.items)
        then (ok tt, deleted id t)
        else (err (prisma record_not_found), t))
unfolding delete
delete-eq id t = ground arith

deleted-IsLedgered :
    (id k : ℕ) (t : Tables)
    → IsLedgered (find (has_id k) t.items) (rows_of k t.movements)
    → IsLedgered (find (has_id k) (deleted id t).items) (rows_of k (deleted id t).movements)
deleted-IsLedgered id k t h =
    rw (find-filter_ne k id t.items, rows_of-filter k id t.movements)
      (elim (Bool-cases (k == id)) [ inl e ↦ rw e refl | inr e ↦ rw e h ])

pub delete-Keeps : (id : ℕ) → Keeps (delete memory id)
delete-Keeps id = record {
  at = λ t c. rw (delete-eq id t) (elim (Bool-cases (is_some (find (has_id id) t.items))) [
    | inl e ↦ rw e (record {
      keyed = filter-IsKeyed id t.items c.keyed;
      sound = filter-All IsSoundItem (λ i. not (has_id id i)) t.items c.sound;
      ledger = λ k. deleted-IsLedgered id k t (c.ledger k);
    })
    | inr e ↦ rw e c
  ]);
}
