-- ===== src/Cart/Service/Locked.antt =====
-- `withLock` around any work.
use practical_microservice.Common.{ℕ, ◌≡◌, inl, inr, refl, Option, none, some}
use practical_microservice.Cart.Calls.{
  World, Reply, ok, err, CartError, Call, Backend, ◌>>=◌, pure, catch,
}
use practical_microservice.Cart.Repository.{LockKey, lock_release, unlock, with_lock, finally}
use practical_microservice.Cart.Service.Request.{with_token, acquire-cases}

-- Work under a lock, for a claim that giving the lock back cannot falsify.
module _ (b : Backend) {A : Type 0} (key : LockKey) (token retries : ℕ)
    (P : Reply A × World → Type 0)
    (stable : (r : Reply A) (u : World)
      → P (r, u)
      → P (r, record u { keys = (lock_release key token u.keys).1 })) where
  unlock-stable : (r : Reply A) (u : World) → P (r, u) → P (r, (unlock b key token u).1)
  unfolding unlock catch pure
  unlock-stable r u h = elim (b.redis_lem (Unit {0}) (lock_release key token) u) [
    | inr (e, q) ↦ rw q h
    | inl q ↦ rw q (stable r u h)
  ]

  module _ (Q : Reply (Option A) × World → Type 0)
      (on_ok : (a : A) (u : World) → P (ok a, u) → Q (ok (some a), u))
      (on_err : (e : CartError) (u : World) → P (err e, u) → Q (err e, u)) where
    finally-stable :
        (work : Call A) (w : World) (r : Reply A) (u : World)
        → work w ≡ (r, u)
        → P (r, u)
        → Q (finally (work >>= λ a. pure (some a)) (unlock b key token) w)
    unfolding finally ◌>>=◌ pure
    finally-stable work w (ok a) u e h = rw e (on_ok a _ (unlock-stable (ok a) u h))
    finally-stable work w (err f) u e h = rw e (on_err f _ (unlock-stable (err f) u h))

    pub with_lock-stable :
        (work : Call A) (w : World)
        → ((e : CartError) → Q (err e, w))
        → Q (ok none, w)
        → P (work (with_token key token w))
        → Q (with_lock b key token retries work w)
    unfolding with_lock ◌>>=◌ pure
    with_lock-stable work w refused busy h = elim (acquire-cases b key token retries w) [
      | inl (e, q) ↦ rw q (refused e)
      | inr (inl q) ↦ rw q busy
      | inr (inr q) ↦
          let locked_world = with_token key token w in
          rw q (finally-stable work locked_world (work locked_world).0 (work locked_world).1 refl h)
    ]
