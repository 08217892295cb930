-- ===== src/Inventory/Repository/Update.antt =====
-- What `update` does, on every branch.
use practical_microservice.Common.{
  ℕ, ◌≡◌, List, [], ◌∷◌, ◌++◌, map, Option, String, find, any, arith, inl, inr, Option-cases,
  if◌then◌else◌,
}
use practical_microservice.Common.Int.{◌==ℤ◌}
use practical_microservice.Inventory.Rules.{Checked, returns, throws, Checked-cases}
use practical_microservice.Inventory.Tables.{InventoryItem, FieldChange, Tables, put}
use practical_microservice.Inventory.Transaction.{
  Action, ok, err, raised, prisma, unique_violation, ◌>>=◌,
}
use practical_microservice.Inventory.Statement.{has_id, clashes}
use practical_microservice.Inventory.Database.{memory}
use practical_microservice.Inventory.Repository.{
  movement_row, patch_movement, audit_row, or_not_found, find_by_id, save_changes, update,
}
use practical_microservice.Inventory.Repository.Diff.{
  UpdateInventoryItemInput, patch_item, diff_inventory_item,
}
use practical_microservice.Inventory.Repository.StockChange.{on_found}

module _ (id : ℕ) (input : UpdateInventoryItemInput) (actor : Option String) where
  -- The patched row, an audit row for each change, and a ledger row if the quantity changed.
  abbrev pub patched : InventoryItem → List FieldChange → Tables → Tables
  patched current changes t = record t {
    items = put (patch_item input current) t.items;
    audit_logs = map (audit_row id actor) changes ++ t.audit_logs;
    movements =
        if (patch_item input current).quantity ==ℤ current.quantity
        then t.movements
        else movement_row id current.quantity
            (patch_movement actor (patch_item input current) current)
          ∷ t.movements;
  }

  abbrev pub saved : InventoryItem → List FieldChange → Action InventoryItem
  saved current [] t = (ok current, t)
  saved current (change ∷ changes) t =
      if any (clashes (patch_item input current)) t.items
      then (err (prisma unique_violation), t)
      else (ok (patch_item input current), patched current (change ∷ changes) t)

  abbrev pub validated : InventoryItem → Checked (Unit {0}) → Action InventoryItem
  validated current (throws e) t = (err (raised e), t)
  validated current (returns _) t = saved current (diff_inventory_item current input) t

  pub update-eq :
      (validate : InventoryItem → Checked (Unit {0})) (t : Tables)
      → update memory id input actor validate t
        ≡ on_found (find (has_id id) t.items) (λ current. validated current (validate current)) t
  unfolding update find_by_id or_not_found save_changes ◌>>=◌
  update-eq validate t = elim (Option-cases (find (has_id id) t.items)) [
    | inl e ↦ rw e
    | inr (current, e) ↦ elim (Checked-cases (validate current)) [
      | inr (error, p) ↦ ground arith
      | inl (checked, p) ↦ ground arith
    ]
  ]
