-- ===== src/Inventory/Requests/Removal.antt =====
-- Deleting an item: `remove` of services/inventory/src/modules/inventory/inventory.service.ts.
use practical_microservice.Common.{
  ℕ, ◌≡◌, refl, ◌⊎◌, false, [], Option, none, some, find, arith, inl, inr, if◌then◌else◌,
  Option-cases,
}
use practical_microservice.Common.Int.{pos, ltb_ℤ}
use practical_microservice.Inventory.Errors.{not_found_error, conflict_error}
use practical_microservice.Inventory.Rules.{returns, StockLevels, plan_reservation}
use practical_microservice.Inventory.Rules.Laws.{IsSound, assert_invariants_iff}
use practical_microservice.Inventory.Tables.{reservation, InventoryItem, levels, Tables}
use practical_microservice.Inventory.Transaction.{
  Action, ok, err, raised, prisma, refused, bind, give,
}
use practical_microservice.Inventory.Statement.{has_id, with_levels}
use practical_microservice.Inventory.Database.{Database, memory}
use practical_microservice.Inventory.Repository.{StockChangePlan, find_by_id}
use practical_microservice.Inventory.Repository
use practical_microservice.Inventory.Repository.StockChange.{
  changed, id-find, apply_stock_change-eq,
}
use practical_microservice.Inventory.Rows.{find-put}
use practical_microservice.Inventory.Refinement.{remove-Agrees}
use practical_microservice.Inventory.Invariant.Lifecycle.{deleted, delete-eq}
use practical_microservice.Inventory.Service.{
  StockInput, change_plan, get_by_id, view_found, to_inventory_item_view, remove, remove_during,
  apply_change, reserve,
}

-- What `remove` is meant to do to a row that it finds.
abbrev pub removed : ℕ → Option InventoryItem → Action (Unit {0})
removed id none t = (err (raised not_found_error), t)
removed id (some item) t =
    if ltb_ℤ (pos 0) item.reserved
    then (err (raised (conflict_error [])), t)
    else (ok tt, deleted id t)

remove-eq : (id : ℕ) (t : Tables) → remove memory id t ≡ removed id (find (has_id id) t.items) t
unfolding remove get_by_id find_by_id view_found to_inventory_item_view bind give
remove-eq id t = elim (Option-cases (find (has_id id) t.items)) [
  | inl e ↦ rw e
  | inr (item, e) ↦ ground (arith, delete-eq id t)
]

-- What other requests do while `remove` is between its check and its delete: one reservation.
abbrev pub reserving : ℕ → StockInput → Action (Unit {0})
reserving id input = bind (reserve memory id input) (λ _. give tt)

-- Over any lawful client, with no other request in between: a missing item is not found, an item
-- with reserved units is left alone with a conflict, and any other goes with its history; or the
-- client refuses a statement and nothing changes.
pub remove-Agrees_removed :
    (db : Database) (id : ℕ) (t : Tables)
    → (remove db id t ≡ removed id (find (has_id id) t.items) t)
      ⊎ (remove db id t ≡ (err (prisma refused), t))
remove-Agrees_removed db id t = rw (← remove-eq id t) ((remove-Agrees db id).at t)

remove_during-unreserved :
    (others : Action (Unit {0})) (id : ℕ) (t : Tables) (item : InventoryItem)
    → find (has_id id) t.items ≡ some item
    → ltb_ℤ (pos 0) item.reserved ≡ false
    → remove_during memory others id t ≡ bind others (λ _. Repository.delete memory id) t
unfolding remove_during get_by_id find_by_id view_found to_inventory_item_view bind give
remove_during-unreserved others id t item found free = rw found (rw free)

module _ (id : ℕ) (input : StockInput) (t : Tables) (item : InventoryItem) (next : StockLevels)
    (found : find (has_id id) t.items ≡ some item)
    (planned : plan_reservation (levels item) input.quantity ≡ returns next)
    (sound : IsSound next) where
  abbrev reservation_plan : StockChangePlan
  reservation_plan = record {
    next = next;
    movement = record {
      type = reservation;
      quantity = input.quantity;
      reason = input.reason;
      reference = input.reference;
    };
  }

  reserve-eq :
      reserve memory id input t
      ≡ (ok (to_inventory_item_view (with_levels next item)), changed item reservation_plan t)
  unfolding reserve apply_change bind give
  reserve-eq =
      rw
        (
          apply_stock_change-eq id
              (change_plan reservation input.quantity input
                (λ l. plan_reservation l input.quantity))
              t,
          found,
        )
        (rw (planned, (assert_invariants_iff next).1 sound, change_plan))

  reserving-eq : reserving id input t ≡ (ok tt, changed item reservation_plan t)
  unfolding bind give
  reserving-eq = rw (reserve-eq, bind)

  -- Between the check of `remove` and its delete a reservation of the unreserved item may commit:
  -- then both requests succeed, and the item and all its history are gone with the units reserved.
  pub remove_during-reserving :
      item.reserved ≡ pos 0
      → let u = (reserving id input t).1 in
        (reserving id input t ≡ (ok tt, u))
        × (find (has_id id) u.items ≡ some (with_levels next item))
        × (remove_during memory (reserving id input) id t ≡ (ok tt, deleted id u))
  unfolding bind
  remove_during-reserving free =
      let stored : find (has_id id) (changed item reservation_plan t).items
          ≡ some (with_levels next item) =
        ground
          (arith, find-put id (with_levels next item) t.items, id-find id t.items item found) in
      rw reserving-eq (
        refl,
        stored,
        rw (
          remove_during-unreserved (reserving id input) id t item found (ground arith),
          bind,
          reserving-eq,
          delete-eq id (changed item reservation_plan t),
          stored,
        ),
      )
