-- ===== src/Cart/Service.antt =====
-- `CartService` for one cart: services/cart/src/cart/cart.service.ts. The session's id is the
-- reference of its requests to inventory.
pub mod Moves
pub mod Update
pub mod Settle
pub mod Request
pub mod Checkout
pub mod Locked
pub mod Handback
pub mod Release
use practical_microservice.Common.{
  ℕ, ◌+◌, Bool, true, false, ◌&&◌, List, [], ◌∷◌, Option, none, some, if◌then◌else◌, length,
}
use practical_microservice.Cart.Types.{
  CartLine, CartChanges, is_empty, is_noop, ReleaseSkip, locked, empty, not_held, ReleaseOutcome,
  CheckoutResult,
}
use practical_microservice.Cart.Planner.{duplicate_product_ids, exceeds_bulk_limit, plan_changes}
use practical_microservice.Cart.Calls.{
  World, CartError, bad_request, conflict, service_unavailable, unreachable, insufficient_stock,
  Call, Reply, ok, err, rollback_failed, ◌>>=◌, ◌>>◌, pure, throw, catch, attempt, log_error,
  Backend,
}
use practical_microservice.Cart.Repository.{
  Settings, write_lock, release_lock, with_lock, held, lines, commit, touch, take_held_lines,
  retire, discard, forget, schedule_release,
}
use practical_microservice.Cart.Transfer.{transfer_hold}

-- The value, or the exception of a cart that another request is updating.
unfoldable pub or_unavailable : {A : Type 0} → Option A → Call A
unfolding pure throw
or_unavailable none = throw service_unavailable
or_unavailable (some a) = pure a

-- `outcome ?? { released: false, skipped: 'locked', lines: 0 }`
abbrev pub or_locked : Option (Option ReleaseOutcome) → ReleaseOutcome
or_locked (some (some outcome)) = outcome
or_locked _ = record { released = false; skipped = some locked; lines = 0 }

module _ (b : Backend) (s : Settings) (session : ℕ) where
  -- `if (lines.length > 0) await this.inventory.reserveMany(…)`
  unfoldable pub reserve_some : List CartLine → Call (Unit {0})
  reserve_some moved = if is_empty moved then pure tt else b.reserve_many moved session

  -- `if (lines.length > 0) await this.dispatch.releaseMany(…)`
  unfoldable pub release_some : List CartLine → Call (Unit {0})
  release_some moved = if is_empty moved then pure tt else b.release_many moved session

  unfoldable pub rollback : List CartLine → List CartLine → Call (Unit {0})
  unfolding catch ◌>>=◌ log_error
  rollback reserved released =
      if is_empty reserved && is_empty released
      then pure tt
      else catch (do release_some reserved; reserve_some released)
          (λ e. log_error (rollback_failed session reserved released))

  -- A step of the `try` of `applyChanges`, with what it has moved so far.
  unfoldable pub or_roll_back : {A : Type 0} → Call A → List CartLine → List CartLine → Call A
  unfolding rollback catch ◌>>=◌
  or_roll_back m reserved released = catch m λ e. do rollback reserved released; throw e

  unfoldable pub apply_changes : CartChanges → Call (List CartLine)
  unfolding ◌>>=◌
  apply_changes changes = do
    or_roll_back (reserve_some changes.reserve) [] []
    or_roll_back (release_some changes.release) changes.reserve []
    or_roll_back (commit b s changes) changes.reserve changes.release

  unfoldable pub apply_requested : List CartLine → Call (List CartLine)
  unfolding ◌>>=◌
  apply_requested requested = do
    quantities ← held b
    let changes = plan_changes quantities requested
    if exceeds_bulk_limit changes
        then throw (bad_request [])
        else (if is_noop changes then (touch b s >>= λ alive. lines b) else apply_changes changes)

  unfoldable pub check_duplicates : List ℕ → Call (Unit {0})
  unfolding pure throw
  check_duplicates [] = pure tt
  check_duplicates (p ∷ duplicates) = throw (bad_request (p ∷ duplicates))

  unfoldable pub set_lines : ℕ → List CartLine → Call (List CartLine)
  unfolding check_duplicates ◌>>=◌
  set_lines token requested = do
    check_duplicates (duplicate_product_ids requested)
    with_lock b write_lock token s.lock_retries (apply_requested requested) >>= or_unavailable

  -- The part of `checkout` under the lock.
  unfoldable pub hand_over : ℕ → List CartLine → Call CheckoutResult
  unfolding ◌>>=◌
  hand_over order [] = throw conflict
  hand_over order (line ∷ rest) = do
    transfer_hold b (line ∷ rest) session order
    discard b
    pure (record { cart_session_id = session; order_id = order; lines = line ∷ rest })

  unfoldable pub checkout : ℕ → ℕ → Call CheckoutResult
  unfolding hand_over ◌>>=◌
  checkout token order =
      with_lock b write_lock token s.lock_retries (lines b >>= hand_over order) >>= or_unavailable

  -- The `catch` of `releaseHeld`.
  unfoldable pub release_failed : List CartLine → CartError → Call ReleaseOutcome
  unfolding ◌>>=◌
  release_failed quantities (insufficient_stock products) = do
    retire b
    pure (record { released = false; skipped = some not_held; lines = length quantities })
  release_failed quantities e = do schedule_release b (s.now + s.release_retry_delay); throw e

  unfoldable pub release_held : List CartLine → Call ReleaseOutcome
  unfolding release_failed attempt ◌>>=◌
  release_held quantities =
      attempt (b.release_many quantities session)
        (λ _. retire b >>= λ _.
          pure (record { released = true; skipped = none; lines = length quantities }))
        (release_failed quantities)

  -- What `releaseSession` does with both locks.
  unfoldable pub release_taken : List CartLine → Call ReleaseOutcome
  unfolding release_held ◌>>=◌
  release_taken [] = do
    forget b
    pure (record { released = false; skipped = some empty; lines = 0 })
  release_taken (line ∷ rest) = release_held (line ∷ rest)

  unfoldable pub release_session : ℕ → ℕ → Call ReleaseOutcome
  unfolding release_taken ◌>>=◌
  release_session release_token write_token = do
    outcome ←
        with_lock b release_lock release_token 0 (
          with_lock b write_lock write_token s.lock_retries (take_held_lines b s >>= release_taken))
    pure (or_locked outcome)
