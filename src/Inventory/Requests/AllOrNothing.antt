-- ===== src/Inventory/Requests/AllOrNothing.antt =====
-- A bulk request holds everything that it asks for or nothing.
use practical_microservice.Common.{
  ◌≡◌, ◌∙◌, refl, false, List, [], ◌∷◌, Option, none, some, find, All, All-mono, arith, inl, inr,
}
use practical_microservice.Common.Int.{ℤ}
use practical_microservice.Inventory.Rules.{Checked, returns, StockLevels}
use practical_microservice.Inventory.Rules.Laws.{IsSound}
use practical_microservice.Inventory.Tables.{StockMovementType, InventoryItem, levels, Tables}
use practical_microservice.Inventory.Transaction.{Result, ok, err, bind, continue, give}
use practical_microservice.Inventory.Statement.{has_id, with_levels, contains}
use practical_microservice.Inventory.Database.{Database}
use practical_microservice.Inventory.Repository.{IdempotencyKey, Target, movement_row, sort_targets}
use practical_microservice.Inventory.Repository.Targets.{
  aims_at, IsDistinct, find-put_all, find-sort_targets, sort_targets-IsDistinct, sort_targets-All,
}
use practical_microservice.Inventory.Rows.{IsKeyed, IsRow}
use practical_microservice.Inventory.Refinement.{apply_bulk_stock_change-Agrees}
use practical_microservice.Inventory.Invariant.Defs.{rows_of}
use practical_microservice.Inventory.Invariant.Batch.{rows_of-written}
use practical_microservice.Inventory.Service.{views, apply_bulk_change}
use practical_microservice.Inventory.Service.Bulk.{
  BulkInput, BulkStockLine, line_products, plan_bulk,
}
use practical_microservice.Inventory.Service.Bulk.Planning.{
  Aims, Hits, Aims-find, HasDistinctProducts, line_movement,
}
use practical_microservice.Inventory.Service.Bulk.Exact.{
  bulk, bulk_cases, IsApplied, rows_read, written, claimed, batch_rows-IsRowMap,
}
use practical_microservice.Inventory.Requests.Batch.{next_levels-returns}

module _ (type : StockMovementType) (input : BulkInput)
    (plan : StockLevels → ℤ → Checked StockLevels) (key : Option IdempotencyKey) (t : Tables) where
  -- What a line has become between `t` and `u`.
  pub record IsLineApplied (u : Tables) (line : BulkStockLine) : Type 0 where
    pub item : InventoryItem
    pub next : StockLevels
    pub read : rows_read type input plan key t line.product_id ≡ some item
    pub allowed : plan (levels item) line.quantity ≡ returns next
    pub sound : IsSound next
    pub stored : find (has_id item.id) u.items ≡ some (with_levels next item)
    pub logged :
        rows_of item.id u.movements
        ≡ movement_row item.id item.quantity (line_movement type input plan line)
          ∷ rows_of item.id t.movements

  -- A row of a product that no line names is as before.
  abbrev pub LeavesOthers : Tables → Type 0
  LeavesOthers u =
      (item : InventoryItem)
      → IsRow t.items item
      → contains (line_products input.items) item.product_id ≡ false
      → IsRow u.items item

  abbrev pub IsAllOrNothing : {A : Type 0} → Result A × Tables → Type 0
  IsAllOrNothing (err e, u) = u ≡ t
  IsAllOrNothing (ok a, u) = All (IsLineApplied u) input.items × LeavesOthers u

self-find :
    (targets : List Target)
    → IsDistinct targets
    → All (λ x. find (aims_at x.item.id) targets ≡ some x) targets
self-find [] d = tt
self-find (x ∷ targets) d = (
  ground arith,
  All-mono (λ y. find (aims_at y.item.id) targets ≡ some y)
      (λ y. find (aims_at y.item.id) (x ∷ targets) ≡ some y) (λ y h. ground arith) targets
      (self-find targets d.1),
)

module _ (type : StockMovementType) (input : BulkInput)
    (plan : StockLevels → ℤ → Checked StockLevels) (key : Option IdempotencyKey) (t : Tables)
    (a : IsApplied type input plan key t) where
  abbrev after : Tables
  after = written (sort_targets a.targets) (claimed key t)

  Hits-IsLineApplied :
      (line : BulkStockLine) (x : Target)
      → Hits type input plan (rows_read type input plan key t) line x
      → find (aims_at x.item.id) a.targets ≡ some x
      → IsLineApplied type input plan key t after line
  Hits-IsLineApplied line x (found, fits, moved) aimed =
      let (allowed, sound) =
        next_levels-returns plan (levels x.item) line.quantity x.next.next fits in
      let sorted = sort_targets a.targets in
      let distinct = sort_targets-IsDistinct a.targets a.distinct in
      let rows = sort_targets-All (λ y. IsRow t.items y.item) a.targets a.rows in
      let hit : find (aims_at x.item.id) sorted ≡ some x =
        find-sort_targets x.item.id a.targets ∙ aimed in
      record {
        item = x.item;
        next = x.next.next;
        read = found;
        allowed = allowed;
        sound = sound;
        stored = rw (find-put_all x.item.id sorted t.items distinct rows, hit);
        logged = rw (rows_of-written x.item.id sorted t.movements distinct, hit) (rw moved);
      }

  Aims-All :
      (lines : List BulkStockLine) (targets : List Target)
      → Aims type input plan (rows_read type input plan key t) lines targets
      → All (λ x. find (aims_at x.item.id) a.targets ≡ some x) targets
      → All (IsLineApplied type input plan key t after) lines
  Aims-All [] [] h k = tt
  Aims-All (line ∷ lines) (x ∷ targets) (hit, h) (aimed, k) =
      (Hits-IsLineApplied line x hit aimed, Aims-All lines targets h k)
  Aims-All [] (x ∷ targets) h k = absurd h
  Aims-All (line ∷ lines) [] h k = absurd h

  applied-LeavesOthers : IsKeyed t.items → LeavesOthers type input plan key t after
  applied-LeavesOthers keyed item row unnamed =
      let sorted = sort_targets a.targets in
      let miss : find (aims_at item.id) sorted ≡ none =
        find-sort_targets item.id a.targets
        ∙ Aims-find type input plan t.items (rows_read type input plan key t)
            (batch_rows-IsRowMap (line_products input.items) t keyed) item input.items a.targets row
            unnamed a.aims in
      rw
        (
          find-put_all item.id sorted t.items (sort_targets-IsDistinct a.targets a.distinct)
              (sort_targets-All (λ y. IsRow t.items y.item) a.targets a.rows),
          miss,
        )
        row

module _ (type : StockMovementType) (input : BulkInput)
    (plan : StockLevels → ℤ → Checked StockLevels) (key : Option IdempotencyKey) (t : Tables)
    (keyed : IsKeyed t.items) (distinct : HasDistinctProducts input.items) where
  bulk-IsAllOrNothing : IsAllOrNothing type input plan key t (bulk type input plan key t)
  bulk-IsAllOrNothing = elim (bulk_cases type input plan key t keyed distinct) [
    | inl (e, failed) ↦ rw failed refl
    | inr a ↦ rw a.result (
      Aims-All type input plan key t a input.items a.targets a.aims
          (self-find a.targets a.distinct),
      applied-LeavesOthers type input plan key t a keyed,
    )
  ]

  continue-IsAllOrNothing :
      {A B : Type 0} (f : A → B) (r : Result A) (u : Tables)
      → IsAllOrNothing type input plan key t (r, u)
      → IsAllOrNothing type input plan key t (continue (λ a. give (f a)) r u)
  unfolding give
  continue-IsAllOrNothing f (ok a) u h = h
  continue-IsAllOrNothing f (err e) u h = h

  -- Over any lawful client, on tables whose ids are unique and for a batch that names no product
  -- twice: a bulk transition that fails leaves the tables as they were, and one that returns has
  -- moved every line from the row's levels to those that its rule allows, sound ones, with one new
  -- ledger row for the item, and has left the row of every product that no line names as it was.
  pub apply_bulk_change-IsAllOrNothing :
      (db : Database)
      → IsAllOrNothing type input plan key t (apply_bulk_change db type input plan key t)
  unfolding apply_bulk_change bind
  apply_bulk_change-IsAllOrNothing db =
      elim ((apply_bulk_stock_change-Agrees db (line_products input.items)
          (plan_bulk type input plan) key).at
        t) [
          | inl e ↦
              rw (e, bind)
                (continue-IsAllOrNothing views (bulk type input plan key t).0
                  (bulk type input plan key t).1 bulk-IsAllOrNothing)
          | inr e ↦ rw (e, bind) refl
        ]
