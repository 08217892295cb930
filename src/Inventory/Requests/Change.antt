-- ===== src/Inventory/Requests/Change.antt =====
-- What the single-item writes do, on every branch, over any lawful client.
use practical_microservice.Common.{ℕ, ◌≡◌, ◌⊎◌, Option, String, find}
use practical_microservice.Inventory.Rules.{Checked}
use practical_microservice.Inventory.Tables.{InventoryItem, Tables}
use practical_microservice.Inventory.Transaction.{err, prisma, refused}
use practical_microservice.Inventory.Statement.{has_id}
use practical_microservice.Inventory.Database.{Database}
use practical_microservice.Inventory.Repository.{StockChangePlan, apply_stock_change, update}
use practical_microservice.Inventory.Repository.Diff.{UpdateInventoryItemInput}
use practical_microservice.Inventory.Repository.StockChange.{
  planned, on_found, apply_stock_change-eq,
}
use practical_microservice.Inventory.Repository.Update.{validated, update-eq}
use practical_microservice.Inventory.Refinement.{apply_stock_change-Agrees, update-Agrees}

-- Over any lawful client a stock change is refused and changes nothing, or else: a missing item is
-- not found; what the planner throws is thrown, with nothing changed; and a plan is written to the
-- row it was made for, with one ledger row that holds the quantity before.
pub apply_stock_change-planned :
    (db : Database) (id : ℕ) (plan : InventoryItem → Checked StockChangePlan) (t : Tables)
    → (apply_stock_change db id plan t
        ≡ on_found (find (has_id id) t.items) (λ current. planned current (plan current)) t)
      ⊎ (apply_stock_change db id plan t ≡ (err (prisma refused), t))
apply_stock_change-planned db id plan t =
    rw (← apply_stock_change-eq id plan t) ((apply_stock_change-Agrees db id plan).at t)

-- Over any lawful client a PATCH is refused and changes nothing, or else: a missing item is not
-- found; what the validator throws is thrown; a patch that differs in no field returns the row and
-- writes nothing; one that takes another item's SKU or product is a unique violation and writes
-- nothing; and any other is written with an audit row for each field that differs, and with a
-- ledger row just when the quantity differs.
pub update-validated :
    (db : Database) (id : ℕ) (input : UpdateInventoryItemInput) (actor : Option String)
    (validate : InventoryItem → Checked (Unit {0})) (t : Tables)
    → (update db id input actor validate t
        ≡ on_found
            (find (has_id id) t.items)
            (λ current. validated id input actor current (validate current))
            t)
      ⊎ (update db id input actor validate t ≡ (err (prisma refused), t))
update-validated db id input actor validate t =
    rw (← update-eq id input actor validate t) ((update-Agrees db id input actor validate).at t)
