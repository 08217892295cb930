-- ===== src/Inventory/Requests.antt =====
-- The inventory service under any sequence of requests. Every transaction is serializable, so
-- concurrent requests are some sequence of these steps; a request of several transactions
-- (`create`, `remove`) is several steps, with others between them.
pub mod Preserve
pub mod Batch
pub mod AllOrNothing
pub mod Idempotency
pub mod Removal
pub mod Verdict
pub mod Change
use practical_microservice.Common.{ℕ, ◌≡◌, Option, none, String}
use practical_microservice.Common.Int.{ℤ, pos, ◌≤ℤ◌}
use practical_microservice.Inventory.Tables.{Tables}
use practical_microservice.Inventory.Database.{Database}
use practical_microservice.Inventory.Repository.{CreateInventoryItemInput, IdempotencyKey}
use practical_microservice.Inventory.Repository
use practical_microservice.Inventory.Repository.Diff.{UpdateInventoryItemInput}
use practical_microservice.Inventory.Service.{
  StockInput, validate_patch, reserve, release_units, fulfil, sell, receive, accept_return, adjust,
  reserve_many, release_many,
}
use practical_microservice.Inventory.Service.Bulk.{BulkInput}
use practical_microservice.Inventory.Service.Bulk.Planning.{HasDistinctProducts}
use practical_microservice.Inventory.Invariant.Defs.{IsConsistent}
use Preserve.{
  create-Preserves, update-Preserves, delete-Preserves, reserve-Preserves, release_units-Preserves,
  fulfil-Preserves, sell-Preserves, receive-Preserves, accept_return-Preserves, adjust-Preserves,
}
use Batch.{reserve_many-Preserves, release_many-Preserves}

-- One committed or refused transaction. The premises are what the schemas check of a body.
pub data Step (db : Database) (t u : Tables) : Type 0 where
  creates :
      (id : ℕ) (input : CreateInventoryItemInput)
      → pos 0 ≤ℤ input.quantity
      → u ≡ (Repository.create db id input t).1
      → Step db t u
  updates :
      (id : ℕ) (input : UpdateInventoryItemInput) (actor : Option String)
      → u ≡ (Repository.update db id input actor (validate_patch input) t).1
      → Step db t u
  deletes : (id : ℕ) → u ≡ (Repository.delete db id t).1 → Step db t u
  reserves : (id : ℕ) (input : StockInput) → u ≡ (reserve db id input t).1 → Step db t u
  releases : (id : ℕ) (input : StockInput) → u ≡ (release_units db id input t).1 → Step db t u
  fulfils : (id : ℕ) (input : StockInput) → u ≡ (fulfil db id input t).1 → Step db t u
  sells : (id : ℕ) (input : StockInput) → u ≡ (sell db id input t).1 → Step db t u
  receives : (id : ℕ) (input : StockInput) → u ≡ (receive db id input t).1 → Step db t u
  returns_units : (id : ℕ) (input : StockInput) → u ≡ (accept_return db id input t).1 → Step db t u
  adjusts : (id : ℕ) (input : StockInput) → u ≡ (adjust db id input t).1 → Step db t u
  reserves_many :
      (input : BulkInput)
      → HasDistinctProducts input.items
      → u ≡ (reserve_many db input t).1
      → Step db t u
  releases_many :
      (input : BulkInput) (key : Option IdempotencyKey)
      → HasDistinctProducts input.items
      → u ≡ (release_many db input key t).1
      → Step db t u

pub data Reach (db : Database) (t : Tables) : Tables → Type 0 where
  start : Reach db t t
  next : {u v : Tables} → Reach db t u → Step db u v → Reach db t v

pub Step-IsConsistent :
    (db : Database) {t u : Tables} → Step db t u → IsConsistent t → IsConsistent u
Step-IsConsistent db {t} (creates id input h e) c = rw e ((create-Preserves db id input h).at t c)
Step-IsConsistent db {t} (updates id input actor e) c =
    rw e ((update-Preserves db id input actor).at t c)
Step-IsConsistent db {t} (deletes id e) c = rw e ((delete-Preserves db id).at t c)
Step-IsConsistent db {t} (reserves id input e) c = rw e ((reserve-Preserves db id input).at t c)
Step-IsConsistent db {t} (releases id input e) c =
    rw e ((release_units-Preserves db id input).at t c)
Step-IsConsistent db {t} (fulfils id input e) c = rw e ((fulfil-Preserves db id input).at t c)
Step-IsConsistent db {t} (sells id input e) c = rw e ((sell-Preserves db id input).at t c)
Step-IsConsistent db {t} (receives id input e) c = rw e ((receive-Preserves db id input).at t c)
Step-IsConsistent db {t} (returns_units id input e) c =
    rw e ((accept_return-Preserves db id input).at t c)
Step-IsConsistent db {t} (adjusts id input e) c = rw e ((adjust-Preserves db id input).at t c)
Step-IsConsistent db {t} (reserves_many input d e) c =
    rw e ((reserve_many-Preserves db input d).at t c)
Step-IsConsistent db {t} (releases_many input key d e) c =
    rw e ((release_many-Preserves db input key d).at t c)

-- From consistent tables, over any lawful database client, every sequence of transactions, refused
-- ones included, leaves consistent tables: no id stands twice, no item has a negative count or
-- more units reserved than on hand, and each item's ledger rows lead from nothing to its quantity.
pub Reach-IsConsistent :
    (db : Database) {t u : Tables} → IsConsistent t → Reach db t u → IsConsistent u
Reach-IsConsistent db c start = c
Reach-IsConsistent db c (next r s) = Step-IsConsistent db s (Reach-IsConsistent db c r)
