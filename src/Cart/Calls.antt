-- ===== src/Cart/Calls.antt =====
-- Calls of the cart service: what they return, what they may throw, and the world they act on.
use practical_microservice.Common.{ℕ, ◌+◌, ◌≡◌, ◌⊎◌, List, ◌∷◌, ◌==◌, if◌then◌else◌}
use practical_microservice.Cart.Types.{CartLine}
use practical_microservice.Cart.Store.{Keys}
use practical_microservice.Cart.Planner.Plan.{total}

-- The exceptions of the service, and every failure of a transport as `unreachable`.
pub data CartError : Type 0 where
  bad_request : List ℕ → CartError
  conflict service_unavailable unreachable : CartError
  insufficient_stock : List ℕ → CartError

pub data Reply (A : Type 0) : Type 0 where
  ok : A → Reply A
  err : CartError → Reply A

-- The errors that the service logs: a rollback that failed, with the lines that were reserved and
-- released and need reconciling by hand, and a failed transfer whose hold could not be restored.
pub data LogEntry : Type 0 where
  rollback_failed : ℕ → List CartLine → List CartLine → LogEntry
  restore_failed : ℕ → ℕ → LogEntry

-- The cart's keys in Redis, the log, and what inventory has accepted: the units, by the reference
-- of the requests and by product, of all the reservations and of all the releases. Inventory itself
-- has one counter per product, and the references only on its ledger.
pub record World : Type 0 where
  pub keys : Keys
  pub reserved : ℕ → ℕ → ℕ
  pub released : ℕ → ℕ → ℕ
  pub log : List LogEntry

abbrev pub Call : Type 0 → Type 0
Call A = World → Reply A × World

unfoldable pub pure : {A : Type 0} → A → Call A
pure a w = (ok a, w)

unfoldable pub throw : {A : Type 0} → CartError → Call A
throw e w = (err e, w)

abbrev pub resume : {A B : Type 0} → (A → Call B) → Reply A × World → Reply B × World
resume f (ok a, w) = f a w
resume f (err e, w) = (err e, w)

infixl 5 ◌>>=◌ ◌>>◌
unfoldable pub ◌>>=◌ : {A B : Type 0} → Call A → (A → Call B) → Call B
unfolding pure throw
◌>>=◌ m f w = resume f (m w)

abbrev pub ◌>>◌ : {B : Type 0} → Call (Unit {0}) → Call B → Call B
m >> k = m >>= λ _. k

abbrev pub recover : {A : Type 0} → (CartError → Call A) → Reply A × World → Reply A × World
recover handler (ok a, w) = (ok a, w)
recover handler (err e, w) = handler e w

-- `try { … } catch (error) { … }`
unfoldable pub catch : {A : Type 0} → Call A → (CartError → Call A) → Call A
catch m handler w = recover handler (m w)

-- `this.logger.error(…)`
unfoldable pub log_error : LogEntry → Call (Unit {0})
log_error entry w = (ok tt, record w { log = entry ∷ w.log })

abbrev pub branch :
    {A B : Type 0} → (A → Call B) → (CartError → Call B) → Reply A × World → Reply B × World
branch f g (ok a, w) = f a w
branch f g (err e, w) = g e w

-- A `try` around one call, and what follows it.
unfoldable pub attempt : {A B : Type 0} → Call A → (A → Call B) → (CartError → Call B) → Call B
attempt m f g w = branch f g (m w)

abbrev pub with_units : ℕ → List CartLine → (ℕ → ℕ → ℕ) → ℕ → ℕ → ℕ
with_units reference lines units r p =
    if r == reference then units r p + total p lines else units r p

-- A call does what is documented, or rejects and changes nothing.
abbrev pub Refuses : {A : Type 0} → Call A → World → Type 0
Refuses m w = (e : CartError) × (m w ≡ (err e, w))

-- What the service reaches over the network: the Redis client, which runs one command or one
-- script at a time, and the inventory port and dispatch of
-- services/cart/src/inventory/inventory.port.ts. `bulk_release` is the release over HTTP that a
-- transfer makes, whatever transport the dispatch has. Their contract: a reservation is of the whole
-- batch or of nothing, a call that rejects has done nothing, and a release that returns has been
-- accepted, applied over HTTP and queued over a broker. Any call may reject; a release of more than
-- is reserved may, over HTTP, or may be accepted, over a broker.
pub record Backend : Type 1 where
  pub redis : (A : Type 0) → (Keys → A × Keys) → Call A
  pub reserve_many : List CartLine → ℕ → Call (Unit {0})
  pub release_many : List CartLine → ℕ → Call (Unit {0})
  pub bulk_release : List CartLine → ℕ → Call (Unit {0})
  pub redis_lem :
      (A : Type 0) (f : Keys → A × Keys) (w : World)
      → (redis A f w ≡ (ok (f w.keys).0, record w { keys = (f w.keys).1 })) ⊎ Refuses (redis A f) w
  pub reserve_many_lem :
      (lines : List CartLine) (reference : ℕ) (w : World)
      → (reserve_many lines reference w
          ≡ (ok tt, record w { reserved = with_units reference lines w.reserved }))
        ⊎ Refuses (reserve_many lines reference) w
  pub release_many_lem :
      (lines : List CartLine) (reference : ℕ) (w : World)
      → (release_many lines reference w
          ≡ (ok tt, record w { released = with_units reference lines w.released }))
        ⊎ Refuses (release_many lines reference) w
  pub bulk_release_lem :
      (lines : List CartLine) (reference : ℕ) (w : World)
      → (bulk_release lines reference w
          ≡ (ok tt, record w { released = with_units reference lines w.released }))
        ⊎ Refuses (bulk_release lines reference) w
