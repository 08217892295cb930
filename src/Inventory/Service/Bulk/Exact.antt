-- ===== src/Inventory/Service/Bulk/Exact.antt =====
-- A bulk transition over the documented client: it fails and changes nothing, or writes every line.
use practical_microservice.Common.{
  ℕ, ◌≡◌, refl, ◌⊎◌, Bool, true, false, List, ◌∷◌, ◌++◌, map, Option, none, some, ◌==◌, filter, any,
  arith, inl, inr, Bool-cases,
}
use practical_microservice.Common.Int.{ℤ}
use practical_microservice.Inventory.Errors.{AppError, duplicate_operation_error}
use practical_microservice.Inventory.Rules.{Checked, returns, throws, StockLevels, Checked-cases}
use practical_microservice.Inventory.Tables.{
  StockMovementType, InventoryItem, ProcessedMessage, Tables,
}
use practical_microservice.Inventory.Transaction.{Result, raised, ok, err, ◌>>=◌}
use practical_microservice.Inventory.Statement.{contains}
use practical_microservice.Inventory.Database.{memory}
use practical_microservice.Inventory.Repository.{
  Target, ItemMap, BulkStockChangePlan, IdempotencyKey, processed_row, claim, or_duplicate,
  find_targets, by_product_id, sort_targets, apply_bulk_stock_change,
}
use practical_microservice.Inventory.Repository.Targets.{
  IsDistinct, AreRows, row_after, ledger_row, put_all, sort_targets-IsDistinct, sort_targets-All,
  write_targets-eq,
}
use practical_microservice.Inventory.Rows.{IsKeyed, IsRow, by_product_id-IsRow}
use practical_microservice.Inventory.Service.Bulk.{BulkInput, line_products, plan_bulk}
use practical_microservice.Inventory.Service.Bulk.Planning.{
  Aims, IsRowMap, HasDistinctProducts, Aims-AreRows, Aims-IsDistinct, check_lines-Aims,
  plan_bulk-eq-returns,
}

-- The message has been applied.
abbrev pub is_processed : ℕ → Tables → Bool
is_processed message t = any (λ (p : ProcessedMessage). p.message_id == message) t.processed

abbrev pub is_repeat : Option IdempotencyKey → Tables → Bool
is_repeat none t = false
is_repeat (some key) t = is_processed key.message_id t

abbrev pub claim_row : Option IdempotencyKey → List ProcessedMessage → List ProcessedMessage
claim_row none rows = rows
claim_row (some key) rows = processed_row key ∷ rows

abbrev pub claimed : Option IdempotencyKey → Tables → Tables
claimed key t = record t { processed = claim_row key t.processed }

-- The map that the planner receives.
abbrev pub batch_rows : List ℕ → Tables → ItemMap
batch_rows products t = by_product_id (filter (λ i. contains products i.product_id) t.items)

abbrev pub written : List Target → Tables → Tables
written targets t = record t {
  items = put_all targets t.items;
  movements = map ledger_row targets ++ t.movements;
}

pub batch_rows-IsRowMap :
    (products : List ℕ) (t : Tables) → IsKeyed t.items → IsRowMap t.items (batch_rows products t)
batch_rows-IsRowMap products t k product r e = by_product_id-IsRow products t.items product r k e

module _ (products : List ℕ) (plan : ItemMap → Checked (List BulkStockChangePlan))
    (t : Tables) where
  pub bulk_repeat :
      (key : IdempotencyKey)
      → is_processed key.message_id t ≡ true
      → apply_bulk_stock_change memory products plan (some key) t
        ≡ (err (raised (duplicate_operation_error key.message_id)), t)
  unfolding apply_bulk_stock_change or_duplicate ◌>>=◌
  bulk_repeat key h = rw (h, apply_bulk_stock_change)

  claim-claimed :
      (key : Option IdempotencyKey)
      → is_repeat key t ≡ false
      → claim memory key t ≡ ok (tt, claimed key t)
  unfolding claim or_duplicate ◌>>=◌
  claim-claimed none h = refl
  claim-claimed (some key) h = rw (h, claim)

  pub bulk_refused :
      (key : Option IdempotencyKey) (e : AppError)
      → is_repeat key t ≡ false
      → plan (batch_rows products t) ≡ throws e
      → apply_bulk_stock_change memory products plan key t ≡ (err (raised e), t)
  unfolding apply_bulk_stock_change ◌>>=◌
  bulk_refused none e h p = rw (p, apply_bulk_stock_change)
  bulk_refused (some key) e h p = rw (claim-claimed (some key) h, apply_bulk_stock_change) (rw p)

  pub bulk_written :
      (key : Option IdempotencyKey) (plans : List BulkStockChangePlan) (targets : List Target)
      → is_repeat key t ≡ false
      → plan (batch_rows products t) ≡ returns plans
      → ((t' : Tables) → find_targets (batch_rows products t) plans t' ≡ ok (targets, t'))
      → IsDistinct targets
      → AreRows t.items targets
      → apply_bulk_stock_change memory products plan key t ≡ (
        ok (map row_after (sort_targets targets)),
        written (sort_targets targets) (claimed key t),
      )
  unfolding apply_bulk_stock_change ◌>>=◌
  bulk_written none plans targets h p run d rows = rw (
    p,
    run t,
    write_targets-eq (sort_targets targets) t (sort_targets-IsDistinct targets d)
        (sort_targets-All (λ x. IsRow t.items x.item) targets rows),
    apply_bulk_stock_change,
  )
  bulk_written (some key) plans targets h p run d rows =
      rw (claim-claimed (some key) h, apply_bulk_stock_change)
        (rw (
          p,
          run (claimed (some key) t),
          write_targets-eq (sort_targets targets) (claimed (some key) t)
              (sort_targets-IsDistinct targets d)
              (sort_targets-All (λ x. IsRow t.items x.item) targets rows),
        ))

  pub repeat_refused :
      (key : Option IdempotencyKey)
      → is_repeat key t ≡ true
      → (e : AppError) × (apply_bulk_stock_change memory products plan key t ≡ (err (raised e), t))
  repeat_refused none h = absurd (ground arith)
  repeat_refused (some key) h = (duplicate_operation_error key.message_id, bulk_repeat key h)

-- How a bulk transition of the service may end.
module _ (type : StockMovementType) (input : BulkInput)
    (plan : StockLevels → ℤ → Checked StockLevels) (key : Option IdempotencyKey) (t : Tables) where
  abbrev pub bulk : Result (List InventoryItem) × Tables
  bulk =
      apply_bulk_stock_change memory (line_products input.items) (plan_bulk type input plan) key t

  abbrev pub rows_read : ItemMap
  rows_read = batch_rows (line_products input.items) t

  -- Every line has its row and is allowed; exactly the rows of the lines are written.
  pub record IsApplied : Type 0 where
    pub targets : List Target
    pub new_key : is_repeat key t ≡ false
    pub aims : Aims type input plan rows_read input.items targets
    pub distinct : IsDistinct targets
    pub rows : AreRows t.items targets
    pub result : bulk ≡ (
      ok (map row_after (sort_targets targets)),
      written (sort_targets targets) (claimed key t),
    )

  abbrev pub IsRefused : Type 0
  IsRefused = (e : AppError) × (bulk ≡ (err (raised e), t))

  module _ (keyed : IsKeyed t.items) (distinct_products : HasDistinctProducts input.items) where
    pub bulk_planned :
        (plans : List BulkStockChangePlan)
        → is_repeat key t ≡ false
        → plan_bulk type input plan rows_read ≡ returns plans
        → IsApplied
    bulk_planned plans fresh p =
        let (targets, aims, run) =
          check_lines-Aims type input plan rows_read input.items plans
            (plan_bulk-eq-returns type input plan rows_read plans p) in
        let row_map = batch_rows-IsRowMap (line_products input.items) t keyed in
        let distinct =
          Aims-IsDistinct type input plan t.items rows_read row_map input.items targets
            distinct_products aims in
        let rows =
          Aims-AreRows type input plan t.items rows_read row_map input.items targets aims in
        record {
          targets = targets;
          new_key = fresh;
          aims = aims;
          distinct = distinct;
          rows = rows;
          result =
              bulk_written (line_products input.items) (plan_bulk type input plan) t key plans
                targets fresh p run distinct rows;
        }

    pub bulk_cases : IsRefused ⊎ IsApplied
    bulk_cases = elim (Bool-cases (is_repeat key t)) [
      | inl again ↦
          inl (repeat_refused (line_products input.items) (plan_bulk type input plan) t key again)
      | inr fresh ↦ elim (Checked-cases (plan_bulk type input plan rows_read)) [
        | inl (plans, p) ↦ inr (bulk_planned plans fresh p)
        | inr (e, p) ↦ inl (
          e,
          bulk_refused (line_products input.items) (plan_bulk type input plan) t key e fresh p,
        )
      ]
    ]
