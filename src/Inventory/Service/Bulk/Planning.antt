-- ===== src/Inventory/Service/Bulk/Planning.antt =====
-- What the planner of a batch returns, and what the repository makes of it.
use practical_microservice.Common.{
  ℕ, ◌≡◌, refl, false, List, [], ◌∷◌, none, some, find, arith, inl, inr, Option-cases,
}
use practical_microservice.Common.Int.{ℤ}
use practical_microservice.Inventory.Errors.{ErrorDetail}
use practical_microservice.Inventory.Rules.{Checked, returns, StockLevels, Checked-cases}
use practical_microservice.Inventory.Tables.{StockMovementType, InventoryItem, levels, Tables}
use practical_microservice.Inventory.Transaction.{ok}
use practical_microservice.Inventory.Statement.{contains}
use practical_microservice.Inventory.Repository.{
  Target, ItemMap, BulkStockChangePlan, PlannedMovement, find_targets,
}
use practical_microservice.Inventory.Repository.Targets.{aims_at, IsDistinct, AreRows}
use practical_microservice.Inventory.Rows.{IsRow}
use practical_microservice.Inventory.Service.Bulk.{
  BulkStockLine, BulkInput, line_products, next_levels, check_line, check_lines, judge, plan_bulk,
  conclude,
}

module _ (type : StockMovementType) (input : BulkInput)
    (plan : StockLevels → ℤ → Checked StockLevels) where
  abbrev pub line_movement : BulkStockLine → PlannedMovement
  line_movement line = record {
    type = type;
    quantity = line.quantity;
    reason = input.reason;
    reference = some input.reference;
  }

  -- The target is the row of the line's product, at the levels that the plan gives.
  abbrev pub Hits : ItemMap → BulkStockLine → Target → Type 0
  Hits m line x =
      (m line.product_id ≡ some x.item)
      × (next_levels plan (levels x.item) line.quantity ≡ returns x.next.next)
      × (x.next.movement ≡ line_movement line)

  abbrev pub Aims : ItemMap → List BulkStockLine → List Target → Type 0
  Aims m [] [] = Unit
  Aims m (line ∷ lines) (x ∷ targets) = Hits m line x × Aims m lines targets
  Aims m _ _ = ⊥

  abbrev target_for : BulkStockLine → InventoryItem → StockLevels → Target
  target_for line item next = record {
    next = record { product_id = line.product_id; next = next; movement = line_movement line };
    item = item;
  }

  -- A batch without failures becomes one target for each line.
  pub check_lines-Aims :
      (m : ItemMap) (lines : List BulkStockLine) (plans : List BulkStockChangePlan)
      → check_lines type input plan m lines ≡ (plans, [])
      → (targets : List Target) × Aims m lines targets
        × ((t : Tables) → find_targets m plans t ≡ ok (targets, t))
  unfolding check_lines check_line judge find_targets
  check_lines-Aims m [] plans e = ([], tt, λ t. ground arith)
  check_lines-Aims m (line ∷ lines) plans e = elim (Option-cases (m line.product_id)) [
    | inl missing ↦ absurd (ground arith)
    | inr (item, found) ↦ elim (Checked-cases (next_levels plan (levels item) line.quantity)) [
      | inr (error, refused) ↦ absurd (ground arith)
      | inl (next, allowed) ↦
          let (targets, aims, run) =
            check_lines-Aims m lines (check_lines type input plan m lines).0 (ground arith) in
          (
            target_for line item next ∷ targets,
            ((found, allowed, refl), aims),
            λ t. ground (arith, run t),
          )
    ]
  ]

-- No product stands on two lines (`bulkStockLines` refuses the body otherwise).
abbrev pub HasDistinctProducts : List BulkStockLine → Type 0
HasDistinctProducts [] = Unit
HasDistinctProducts (line ∷ lines) =
    (contains (line_products lines) line.product_id ≡ false) × HasDistinctProducts lines

-- The map gives rows of the table, each for its product.
abbrev pub IsRowMap : List InventoryItem → ItemMap → Type 0
IsRowMap items m =
    (product : ℕ) (r : InventoryItem)
    → m product ≡ some r
    → IsRow items r × (r.product_id ≡ product)

module _ (type : StockMovementType) (input : BulkInput)
    (plan : StockLevels → ℤ → Checked StockLevels) (items : List InventoryItem) (m : ItemMap)
    (rows : IsRowMap items m) where
  pub Aims-AreRows :
      (lines : List BulkStockLine) (targets : List Target)
      → Aims type input plan m lines targets
      → AreRows items targets
  Aims-AreRows [] [] h = tt
  Aims-AreRows (line ∷ lines) (x ∷ targets) h =
      ((rows line.product_id x.item h.0.0).0, Aims-AreRows lines targets h.1)
  Aims-AreRows [] (x ∷ targets) h = absurd h
  Aims-AreRows (line ∷ lines) [] h = absurd h

  pub Aims-find :
      (x : InventoryItem) (lines : List BulkStockLine) (targets : List Target)
      → IsRow items x
      → contains (line_products lines) x.product_id ≡ false
      → Aims type input plan m lines targets
      → find (aims_at x.id) targets ≡ none
  Aims-find x [] [] row c h = refl
  Aims-find x (line ∷ lines) (y ∷ targets) row c h =
      let other = rows line.product_id y.item h.0.0 in ground (arith, Aims-find x lines targets row)
  Aims-find x [] (y ∷ targets) row c h = absurd h
  Aims-find x (line ∷ lines) [] row c h = absurd h

  pub Aims-IsDistinct :
      (lines : List BulkStockLine) (targets : List Target)
      → HasDistinctProducts lines
      → Aims type input plan m lines targets
      → IsDistinct targets
  Aims-IsDistinct [] [] d h = tt
  Aims-IsDistinct (line ∷ lines) (x ∷ targets) d h =
      let own = rows line.product_id x.item h.0.0 in
      (
        Aims-find x.item lines targets own.0 (rw own.1 d.0) h.1,
        Aims-IsDistinct lines targets d.1 h.1,
      )
  Aims-IsDistinct [] (x ∷ targets) d h = absurd h
  Aims-IsDistinct (line ∷ lines) [] d h = absurd h

conclude-eq-returns :
    (r : List BulkStockChangePlan × List ErrorDetail) (plans : List BulkStockChangePlan)
    → conclude r ≡ returns plans
    → r ≡ (plans, [])
unfolding conclude
conclude-eq-returns (some_plans, []) plans h = ground arith
conclude-eq-returns (some_plans, detail ∷ failures) plans h = cc

pub plan_bulk-eq-returns :
    (type : StockMovementType) (input : BulkInput) (plan : StockLevels → ℤ → Checked StockLevels)
    (m : ItemMap) (plans : List BulkStockChangePlan)
    → plan_bulk type input plan m ≡ returns plans
    → check_lines type input plan m input.items ≡ (plans, [])
unfolding plan_bulk
plan_bulk-eq-returns type input plan m plans h =
    conclude-eq-returns (check_lines type input plan m input.items) plans h
