-- ===== src/Cart/Transfer.antt =====
-- `transferHold` of services/cart/src/inventory/inventory.http.adapter.ts: two calls of inventory,
-- the second of which is taken back by a third if it fails.
use practical_microservice.Common.{ℕ, List, if◌then◌else◌}
use practical_microservice.Cart.Types.{CartLine, is_empty}
use practical_microservice.Cart.Calls.{
  Call, ◌>>=◌, ◌>>◌, pure, throw, catch, log_error, restore_failed, Backend,
}

module _ (b : Backend) where
  -- The inner `catch`: the hold goes back to where it was.
  unfoldable pub restore_hold : List CartLine → ℕ → ℕ → Call (Unit {0})
  unfolding catch log_error
  restore_hold items from to =
      catch (b.reserve_many items from) (λ e. log_error (restore_failed from to))

  unfoldable pub transfer_hold : List CartLine → ℕ → ℕ → Call (Unit {0})
  unfolding catch ◌>>=◌
  transfer_hold items from to = if is_empty items then pure tt else do
    b.bulk_release items from
    catch (b.reserve_many items to) (λ e. do restore_hold items from to; throw e)
