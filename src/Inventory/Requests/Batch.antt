-- ===== src/Inventory/Requests/Batch.antt =====
-- Each bulk request of the service keeps the tables consistent, over any lawful client.
use practical_microservice.Common.{◌≡◌, List, [], ◌∷◌, Option, none, All, arith, inl, inr}
use practical_microservice.Common.Int.{ℤ}
use practical_microservice.Inventory.Rules.{
  Checked, returns, StockLevels, assert_invariants, Checked-cases,
}
use practical_microservice.Inventory.Rules.Laws.{
  IsSound, assert_invariants_iff, plan_reservation-Sets, plan_release-Sets,
}
use practical_microservice.Inventory.Tables.{
  StockMovementType, reservation, release, levels, Tables,
}
use practical_microservice.Inventory.Database.{Database, memory}
use practical_microservice.Inventory.Repository.{
  CreateInventoryItemInput, StockChangePlan, IdempotencyKey, ItemMap, Target, sort_targets,
}
use practical_microservice.Inventory.Repository
use practical_microservice.Inventory.Repository.Targets.{sort_targets-IsDistinct, sort_targets-All}
use practical_microservice.Inventory.Rows.{IsRow}
use practical_microservice.Inventory.Refinement.{apply_bulk_stock_change-Agrees}
use practical_microservice.Inventory.Invariant.Defs.{Explains, IsConsistent}
use practical_microservice.Inventory.Invariant.Keeps.{Keeps}
use practical_microservice.Inventory.Invariant.Batch.{IsFairTarget, written-IsConsistent}
use practical_microservice.Inventory.Service.{apply_bulk_change, reserve_many, release_many}
use practical_microservice.Inventory.Service.Bulk.{
  BulkInput, BulkStockLine, next_levels, plan_bulk, line_products,
}
use practical_microservice.Inventory.Service.Bulk.Planning.{Aims, HasDistinctProducts}
use practical_microservice.Inventory.Service.Bulk.Exact.{
  IsApplied, bulk, bulk_cases, claimed, rows_read,
}
use practical_microservice.Inventory.Requests.Preserve.{Keeps-Agrees, Keeps-bind-give}

-- A rule of a batch whose ledger rows say what it does to the quantity.
abbrev IsLoggedBatch : StockMovementType → (StockLevels → ℤ → Checked StockLevels) → Type 0
IsLoggedBatch type plan =
    (l : StockLevels) (quantity : ℤ) (next : StockLevels)
    → plan l quantity ≡ returns next
    → Explains type quantity l.quantity next.quantity

pub next_levels-returns :
    (plan : StockLevels → ℤ → Checked StockLevels) (l : StockLevels) (quantity : ℤ)
    (next : StockLevels)
    → next_levels plan l quantity ≡ returns next
    → (plan l quantity ≡ returns next) × IsSound next
unfolding next_levels
next_levels-returns plan l quantity next h = elim (Checked-cases (plan l quantity)) [
  | inr (e, q) ↦ absurd (ground arith)
  | inl (after, q) ↦ elim (Checked-cases (assert_invariants after)) [
    | inr (e, r) ↦ absurd (ground arith)
    | inl (checked, r) ↦
        let same : after ≡ next = ground arith in rw (← same) (q, (assert_invariants_iff after).0 r)
  ]
]

module _ (type : StockMovementType) (input : BulkInput)
    (plan : StockLevels → ℤ → Checked StockLevels) (logged : IsLoggedBatch type plan) where
  Aims-IsFairTarget :
      (m : ItemMap) (lines : List BulkStockLine) (targets : List Target)
      → Aims type input plan m lines targets
      → All IsFairTarget targets
  Aims-IsFairTarget m [] [] h = tt
  Aims-IsFairTarget m (line ∷ lines) (x ∷ targets) ((found, allowed, moved), h) =
      let (planned, sound) =
        next_levels-returns plan (levels x.item) line.quantity x.next.next allowed in
      (
        (sound, rw moved (logged (levels x.item) line.quantity x.next.next planned)),
        Aims-IsFairTarget m lines targets h,
      )
  Aims-IsFairTarget m [] (x ∷ targets) h = absurd h
  Aims-IsFairTarget m (line ∷ lines) [] h = absurd h

  IsApplied-IsConsistent :
      (key : Option IdempotencyKey) (t : Tables)
      → IsApplied type input plan key t
      → IsConsistent t
      → IsConsistent (bulk type input plan key t).1
  IsApplied-IsConsistent key t a c = rw a.result (
      written-IsConsistent (sort_targets a.targets) (claimed key t)
        (sort_targets-IsDistinct a.targets a.distinct)
        (sort_targets-All (λ x. IsRow t.items x.item) a.targets a.rows)
        (sort_targets-All IsFairTarget a.targets
          (Aims-IsFairTarget (rows_read type input plan key t) input.items a.targets a.aims))
        (record { keyed = c.keyed; sound = c.sound; ledger = c.ledger }))

  apply_bulk-Keeps :
      (key : Option IdempotencyKey)
      → HasDistinctProducts input.items
      → Keeps (
          Repository.apply_bulk_stock_change memory
            (line_products input.items)
            (plan_bulk type input plan)
            key)
  apply_bulk-Keeps key d = record {
    at = λ t c. elim (bulk_cases type input plan key t c.keyed d) [
      | inl (e, failed) ↦ rw failed c
      | inr applied ↦ IsApplied-IsConsistent key t applied c
    ];
  }

  apply_bulk_change-Preserves :
      (db : Database) (key : Option IdempotencyKey)
      → HasDistinctProducts input.items
      → Keeps (apply_bulk_change db type input plan key)
  unfolding apply_bulk_change
  apply_bulk_change-Preserves db key d = Keeps-bind-give _ _ (
      Keeps-Agrees _ _
        (apply_bulk_stock_change-Agrees db (line_products input.items) (plan_bulk type input plan)
          key)
        (apply_bulk-Keeps key d))

pub reserve_many-Preserves :
    (db : Database) (input : BulkInput)
    → HasDistinctProducts input.items
    → Keeps (reserve_many db input)
unfolding reserve_many
reserve_many-Preserves db input d =
    apply_bulk_change-Preserves reservation input _ plan_reservation-Sets db none d

pub release_many-Preserves :
    (db : Database) (input : BulkInput) (key : Option IdempotencyKey)
    → HasDistinctProducts input.items
    → Keeps (release_many db input key)
unfolding release_many
release_many-Preserves db input key d =
    apply_bulk_change-Preserves release input _ plan_release-Sets db key d
