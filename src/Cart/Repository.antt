-- ===== src/Cart/Repository.antt =====
-- `CartRepository` and `RedisLock` for one cart: services/cart/src/cart/cart.repository.ts and
-- services/cart/src/redis/redis.lock.ts. A reply of a script is the list of its entries.
use practical_microservice.Common.{
  ℕ, zero, suc, ◌+◌, ◌*◌, Bool, true, false, List, Option, none, some, ◌==◌, if◌then◌else◌, is_some,
}
use practical_microservice.Cart.Types.{CartLine, CartChanges}
use practical_microservice.Cart.Planner.{held_quantities, to_cart_lines}
use practical_microservice.Cart.Store.{
  Keys, Lifetimes, cart_commit, cart_touch, cart_take, cart_finish, cart_discard,
}
use practical_microservice.Cart.Calls.{Call, ◌>>=◌, pure, catch, Backend}

-- What services/cart/src/config/env.ts sets, and the time of the request.
pub record Settings : Type 0 where
  pub cart_ttl : ℕ
  pub grace : ℕ
  pub lock_retries : ℕ
  pub release_retry_delay : ℕ
  pub now : ℕ

abbrev pub lifetimes : Settings → Lifetimes
lifetimes s = record {
  session_ttl = s.cart_ttl;
  items_ttl = s.cart_ttl + s.grace;
  due_at = s.now + s.cart_ttl * 1000;
}

-- `writeLock` and `releaseLock` of `CartKeys`.
pub data LockKey : Type 0 where
  write_lock release_lock : LockKey

abbrev pub lock_at : LockKey → Keys → Option ℕ
lock_at write_lock keys = keys.write_lock
lock_at release_lock keys = keys.release_lock

abbrev pub put_lock : LockKey → Option ℕ → Keys → Keys
put_lock write_lock token keys = record keys { write_lock = token }
put_lock release_lock token keys = record keys { release_lock = token }

-- `SET key token PX ttl NX`
unfoldable pub set_nx : LockKey → ℕ → Keys → Bool × Keys
set_nx key token keys =
    if is_some (lock_at key keys) then (false, keys) else (true, put_lock key (some token) keys)

-- `LOCK_RELEASE`: deletes the lock only for its owner.
unfoldable pub lock_release : LockKey → ℕ → Keys → Unit {0} × Keys
lock_release key token keys = elim (lock_at key keys) [
  | none ↦ (tt, keys)
  | some owner ↦ if owner == token then (tt, put_lock key none keys) else (tt, keys)
]

-- `try { return await work(); } finally { … }`, where the last step never throws.
unfoldable pub finally : {A : Type 0} → Call A → Call (Unit {0}) → Call A
finally work last w = let (r, u) = work w in (r, (last u).1)

module _ (b : Backend) where
  -- The attempts; what others do during a delay comes before or after this request.
  unfoldable pub acquire : LockKey → ℕ → ℕ → Call Bool
  unfolding ◌>>=◌
  acquire key token zero = b.redis Bool (set_nx key token)
  acquire key token (suc retries) = do
    let rest = acquire key token retries
    taken ← b.redis Bool (set_nx key token)
    if taken then pure true else rest

  unfoldable pub unlock : LockKey → ℕ → Call (Unit {0})
  unfolding catch pure
  unlock key token = catch (b.redis (Unit {0}) (lock_release key token)) (λ e. pure tt)

  unfoldable pub with_lock : {A : Type 0} → LockKey → ℕ → ℕ → Call A → Call (Option A)
  unfolding acquire unlock finally ◌>>=◌
  with_lock key token retries work = do
    taken ← acquire key token retries
    if taken then finally (work >>= λ a. pure (some a)) (unlock key token) else pure none

  unfoldable pub held : Call (List CartLine)
  held = b.redis (List CartLine) (λ keys. (held_quantities keys.items, keys))

  unfoldable pub lines : Call (List CartLine)
  unfolding held ◌>>=◌
  lines = do quantities ← held; pure (to_cart_lines quantities)

  module _ (s : Settings) where
    unfoldable pub commit : CartChanges → Call (List CartLine)
    unfolding ◌>>=◌
    commit changes = do
      settled ← b.redis _ (cart_commit (lifetimes s) changes.writes changes.removals)
      pure (to_cart_lines (held_quantities settled))

    unfoldable pub touch : Call Bool
    touch = b.redis Bool (cart_touch (lifetimes s))

    unfoldable pub start_session : Call (Unit {0})
    start_session = b.redis (Unit {0}) (λ keys. (tt, record keys { session = some s.cart_ttl }))

    unfoldable pub take_held_lines : Call (List CartLine)
    unfolding ◌>>=◌
    take_held_lines = do
      reply ← b.redis _ (cart_take s.grace)
      pure (to_cart_lines (held_quantities reply))

  unfoldable pub retire : Call (Unit {0})
  retire = b.redis (Unit {0}) cart_finish

  unfoldable pub discard : Call (Unit {0})
  discard = b.redis (Unit {0}) cart_discard

  unfoldable pub forget : Call (Unit {0})
  forget = b.redis (Unit {0}) (λ keys. (tt, record keys { due = none }))

  unfoldable pub schedule_release : ℕ → Call (Unit {0})
  schedule_release at_ms = b.redis (Unit {0}) (λ keys. (tt, record keys { due = some at_ms }))
