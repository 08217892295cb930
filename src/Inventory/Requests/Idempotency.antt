-- ===== src/Inventory/Requests/Idempotency.antt =====
-- A message is applied at most once.
use practical_microservice.Common.{◌≡◌, ◌⊎◌, true, List, some, arith, inl, inr}
use practical_microservice.Inventory.Errors.{duplicate_operation_error}
use practical_microservice.Inventory.Rules.{plan_release}
use practical_microservice.Inventory.Tables.{release, Tables}
use practical_microservice.Inventory.Transaction.{raised, ok, err, prisma, refused, bind, give}
use practical_microservice.Inventory.Database.{Database}
use practical_microservice.Inventory.Repository.{IdempotencyKey, sort_targets}
use practical_microservice.Inventory.Rows.{IsKeyed}
use practical_microservice.Inventory.Refinement.{apply_bulk_stock_change-Agrees}
use practical_microservice.Inventory.Service.{InventoryItemView, release_many}
use practical_microservice.Inventory.Service.Bulk.{BulkInput, line_products, plan_bulk}
use practical_microservice.Inventory.Service.Bulk.Planning.{HasDistinctProducts}
use practical_microservice.Inventory.Service.Bulk.Exact.{
  bulk_cases, bulk_repeat, is_processed, written, claimed,
}

module _ (db : Database) (key : IdempotencyKey) where
  release_many_processed :
      (input : BulkInput) (t u : Tables) (released : List InventoryItemView)
      → IsKeyed t.items
      → HasDistinctProducts input.items
      → release_many db input (some key) t ≡ (ok released, u)
      → is_processed key.message_id u ≡ true
  unfolding release_many bind give
  release_many_processed input t u released keyed distinct h =
      elim ((apply_bulk_stock_change-Agrees db (line_products input.items)
          (plan_bulk release input plan_release) (some key)).at
        t) [
          | inr e ↦ cc
          | inl e ↦ elim (bulk_cases release input plan_release (some key) t keyed distinct) [
            | inl (f, failed) ↦ cc
            | inr a ↦
                let same : written (sort_targets a.targets) (claimed (some key) t) ≡ u = cc in
                rw (← same) (ground arith)
          ]
        ]

  release_many_again :
      (input : BulkInput) (u : Tables)
      → is_processed key.message_id u ≡ true
      → (release_many db input (some key) u
          ≡ (err (raised (duplicate_operation_error key.message_id)), u))
        ⊎ (release_many db input (some key) u ≡ (err (prisma refused), u))
  unfolding release_many bind
  release_many_again input u h =
      elim ((apply_bulk_stock_change-Agrees db (line_products input.items)
          (plan_bulk release input plan_release) (some key)).at
        u) [
          | inl e ↦ inl (
              rw (
                e,
                bulk_repeat (line_products input.items) (plan_bulk release input plan_release) u key
                    h,
                bind,
              ))
          | inr e ↦ inr (rw (e, bind))
        ]

  -- Over any lawful client: once a release under a message id has returned, a second call under
  -- that id, whatever it asks for, is refused as a duplicate, or because the client refuses a
  -- statement, and changes nothing.
  pub release_many-release_many :
      (input again : BulkInput) (t u : Tables) (released : List InventoryItemView)
      → IsKeyed t.items
      → HasDistinctProducts input.items
      → release_many db input (some key) t ≡ (ok released, u)
      → (release_many db again (some key) u
          ≡ (err (raised (duplicate_operation_error key.message_id)), u))
        ⊎ (release_many db again (some key) u ≡ (err (prisma refused), u))
  release_many-release_many input again t u released keyed distinct h =
      release_many_again again u (release_many_processed input t u released keyed distinct h)
