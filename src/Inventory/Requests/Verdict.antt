-- ===== src/Inventory/Requests/Verdict.antt =====
-- A bulk request that cannot be met names every line at fault.
use practical_microservice.Common.{
  ℕ, ◌≡◌, ◌≢◌, refl, sym, ap, map, ◌⊎◌, Bool, true, false, not, List, [], ◌∷◌, Option, none, some,
  filter, arith, inl, inr, Option-cases,
}
use practical_microservice.Common.Int.{ℤ}
use practical_microservice.Inventory.Errors.{ErrorDetail, conflict_error}
use practical_microservice.Inventory.Rules.{Checked, returns, throws, StockLevels, Checked-cases}
use practical_microservice.Inventory.Tables.{StockMovementType, levels, Tables}
use practical_microservice.Inventory.Transaction.{
  Result, ok, err, raised, prisma, refused, bind, continue, give,
}
use practical_microservice.Inventory.Database.{Database}
use practical_microservice.Inventory.Repository.{
  ItemMap, BulkStockChangePlan, IdempotencyKey, sort_targets,
}
use practical_microservice.Inventory.Repository.Targets.{row_after}
use practical_microservice.Inventory.Rows.{IsKeyed}
use practical_microservice.Inventory.Refinement.{apply_bulk_stock_change-Agrees}
use practical_microservice.Inventory.Service.{views, apply_bulk_change}
use practical_microservice.Inventory.Service.Bulk.{
  BulkInput, BulkStockLine, line_products, next_levels, check_line, check_lines, judge, conclude,
  plan_bulk,
}
use practical_microservice.Inventory.Service.Bulk.Planning.{HasDistinctProducts}
use practical_microservice.Inventory.Service.Bulk.Exact.{
  bulk, bulk_planned, bulk_refused, is_repeat, IsApplied, rows_read,
}

-- The line has a row, whose levels the rule takes to sound ones.
abbrev pub is_allowed : (StockLevels → ℤ → Checked StockLevels) → ItemMap → BulkStockLine → Bool
is_allowed plan m line = elim (m line.product_id) [
  | none ↦ false
  | some item ↦ elim (next_levels plan (levels item) line.quantity) [
    | returns next ↦ true
    | throws e ↦ false
  ]
]

abbrev pub failing :
    (StockLevels → ℤ → Checked StockLevels) → ItemMap → List BulkStockLine → List BulkStockLine
failing plan m = filter (λ line. not (is_allowed plan m line))

abbrev pub detail_products : List ErrorDetail → List ℕ
detail_products [] = []
detail_products (d ∷ details) = d.product_id ∷ detail_products details

line_products-nil : (lines : List BulkStockLine) → line_products lines ≡ [] → lines ≡ []
line_products-nil [] h = refl
line_products-nil (line ∷ lines) h = cc

module _ (type : StockMovementType) (input : BulkInput)
    (plan : StockLevels → ℤ → Checked StockLevels) where
  check_lines-failing :
      (m : ItemMap) (lines : List BulkStockLine)
      → detail_products (check_lines type input plan m lines).1
        ≡ line_products (failing plan m lines)
  unfolding check_lines check_line judge
  check_lines-failing m [] = refl
  check_lines-failing m (line ∷ lines) = elim (Option-cases (m line.product_id)) [
    | inl missing ↦ ground (arith, check_lines-failing m lines)
    | inr (item, found) ↦ elim (Checked-cases (next_levels plan (levels item) line.quantity)) [
      | inl (next, allowed) ↦ ground (arith, check_lines-failing m lines)
      | inr (e, rejected) ↦ ground (arith, check_lines-failing m lines)
    ]
  ]

  module _ (key : Option IdempotencyKey) (t : Tables) where
    -- How a fresh batch must end.
    abbrev pub IsVerdict : {A : Type 0} → Result A × Tables → Type 0
    IsVerdict {A} (r, u) =
        let at_fault = failing plan (rows_read type input plan key t) input.items in
        (at_fault ≡ [] → (a : A) × (r ≡ ok a))
        × (at_fault ≢ []
            → (details : List ErrorDetail) × (r ≡ err (raised (conflict_error details)))
              × (detail_products details ≡ line_products at_fault)
              × (u ≡ t))

    module _ (keyed : IsKeyed t.items) (distinct : HasDistinctProducts input.items)
        (fresh : is_repeat key t ≡ false) where
      IsVerdict-by :
          (checked : List BulkStockChangePlan × List ErrorDetail)
          → check_lines type input plan (rows_read type input plan key t) input.items ≡ checked
          → IsVerdict (bulk type input plan key t)
      unfolding plan_bulk conclude
      IsVerdict-by (plans, []) e =
          let a : IsApplied type input plan key t =
            bulk_planned type input plan key t keyed distinct plans fresh (rw e) in
          let same : []
              ≡ line_products (failing plan (rows_read type input plan key t) input.items) =
            rw e at (check_lines-failing (rows_read type input plan key t) input.items) in
          rw a.result (
            (λ h. (map row_after (sort_targets a.targets), refl)),
            λ h. absurd (h (line_products-nil _ (sym same))),
          )
      IsVerdict-by (plans, d ∷ details) e =
          let same : detail_products (d ∷ details)
              ≡ line_products (failing plan (rows_read type input plan key t) input.items) =
            rw e at (check_lines-failing (rows_read type input plan key t) input.items) in
          rw
            (bulk_refused (line_products input.items) (plan_bulk type input plan) t key
              (conflict_error (d ∷ details)) fresh (rw e))
            ((λ h. cc (ap line_products h)), λ h. (d ∷ details, refl, same, refl))

      continue-IsVerdict :
          {A B : Type 0} (f : A → B) (r : Result A) (u : Tables)
          → IsVerdict (r, u)
          → IsVerdict (continue (λ a. give (f a)) r u)
      unfolding give
      continue-IsVerdict f (ok a) u (granted, refused_lines) =
          (λ h. (f a, refl), λ h. cc (refused_lines h).1)
      continue-IsVerdict f (err e) u (granted, refused_lines) = (
        λ h. cc (granted h).1,
        λ h. let (ds, same, products, kept) = refused_lines h in (ds, ground arith, products, kept),
      )

      -- Over any lawful client, for a batch that names no product twice and whose message, if it
      -- has one, is new: either the client refuses a statement and nothing changes; or the request
      -- returns if every line has a row and its rule allows it, and otherwise throws a conflict
      -- that names exactly the lines at fault, in their order, and changes nothing.
      pub apply_bulk_change-IsVerdict :
          (db : Database)
          → IsVerdict (apply_bulk_change db type input plan key t)
            ⊎ (apply_bulk_change db type input plan key t ≡ (err (prisma refused), t))
      unfolding apply_bulk_change bind
      apply_bulk_change-IsVerdict db =
          elim ((apply_bulk_stock_change-Agrees db (line_products input.items)
              (plan_bulk type input plan) key).at
            t) [
              | inl e ↦ inl (
                  rw (e, bind)
                    (continue-IsVerdict views (bulk type input plan key t).0
                      (bulk type input plan key t).1
                      (IsVerdict-by
                        (check_lines type input plan (rows_read type input plan key t) input.items)
                        refl)))
              | inr e ↦ inr (rw (e, bind))
            ]
