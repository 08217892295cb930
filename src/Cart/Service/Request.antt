-- ===== src/Cart/Service/Request.antt =====
-- `setLines` as a request: the check for duplicates, the lock, and the update under it.
use practical_microservice.Common.{
  ℕ, zero, suc, ◌≡◌, ◌⊎◌, inl, inr, refl, ◌∙◌, ap, Bool, true, false, Bool-cases, List, [], ◌∷◌,
  some, arith, is_some,
}
use practical_microservice.Cart.Types.{CartLine}
use practical_microservice.Cart.Planner.{duplicate_product_ids}
use practical_microservice.Cart.Planner.Maps.{IsUnique}
use practical_microservice.Cart.Planner.Duplicates.{duplicate_product_ids-nil_iff}
use practical_microservice.Cart.Store.{Keys}
use practical_microservice.Cart.Store.Hash.{IsHash}
use practical_microservice.Cart.Calls.{
  World, Reply, ok, err, Backend, ◌>>=◌, pure, throw, catch, Refuses,
}
use practical_microservice.Cart.Repository.{
  Settings, LockKey, write_lock, lock_at, put_lock, with_lock, acquire, unlock, set_nx,
  lock_release, finally,
}
use practical_microservice.Cart.Service.{
  apply_requested, set_lines, check_duplicates, or_unavailable,
}
use practical_microservice.Cart.Service.Update.{InSync, IsUpdate}
use practical_microservice.Cart.Service.Settle.{apply_requested-IsUpdate}

-- The lock, if it is taken, is the only thing that `acquire` changes.
abbrev pub with_token : LockKey → ℕ → World → World
with_token key token w = record w { keys = put_lock key (some token) w.keys }

set_nx-lem :
    (key : LockKey) (token : ℕ) (keys : Keys)
    → (set_nx key token keys ≡ (false, keys))
      ⊎ (set_nx key token keys ≡ (true, put_lock key (some token) keys))
unfolding set_nx
set_nx-lem key token keys = elim (Bool-cases (is_some (lock_at key keys))) [
  | inl taken ↦ inl (rw taken refl)
  | inr free ↦ inr (rw free refl)
]

module _ (b : Backend) where
  set_nx-cases :
      (key : LockKey) (token : ℕ) (w : World)
      → Refuses (b.redis Bool (set_nx key token)) w
        ⊎ ((b.redis Bool (set_nx key token) w ≡ (ok false, w))
            ⊎ (b.redis Bool (set_nx key token) w ≡ (ok true, with_token key token w)))
  set_nx-cases key token w = elim (b.redis_lem Bool (set_nx key token) w) [
    | inr refusal ↦ inl refusal
    | inl q ↦ elim (set_nx-lem key token w.keys) [
      | inl e ↦ inr (inl (q ∙ ap (λ r. (ok r.0, record w { keys = r.1 })) e))
      | inr e ↦ inr (inr (q ∙ ap (λ r. (ok r.0, record w { keys = r.1 })) e))
    ]
  ]

  -- However many attempts: an exception, a lock that stays taken, or the lock with this token.
  pub acquire-cases :
      (key : LockKey) (token retries : ℕ) (w : World)
      → Refuses (acquire b key token retries) w
        ⊎ ((acquire b key token retries w ≡ (ok false, w))
            ⊎ (acquire b key token retries w ≡ (ok true, with_token key token w)))
  unfolding acquire ◌>>=◌ pure
  acquire-cases key token zero w = set_nx-cases key token w
  acquire-cases key token (suc retries) w = elim (set_nx-cases key token w) [
    | inl (e, q) ↦ inl (e, rw q refl)
    | inr (inl q) ↦ rw q (acquire-cases key token retries w)
    | inr (inr q) ↦ inr (inr (rw q refl))
  ]

duplicates-cases : (ps : List ℕ) → (ps ≡ []) ⊎ ((p : ℕ) × (qs : List ℕ) × (ps ≡ p ∷ qs))
duplicates-cases [] = inl refl
duplicates-cases (p ∷ qs) = inr (p, qs, refl)

lock_release-items :
    (token : ℕ) (keys : Keys) → (lock_release write_lock token keys).1.items ≡ keys.items
unfolding lock_release
lock_release-items token keys = ground arith

module _ (b : Backend) (s : Settings) (session : ℕ) where
  rekeyed :
      (requested : List CartLine) (w : World) (r : Reply (List CartLine)) (u : World) (keys : Keys)
      → keys.items ≡ u.keys.items
      → IsUpdate b s session requested w (r, u)
      → IsUpdate b s session requested w (r, record u { keys = keys })
  rekeyed requested w (ok answer) u keys e h = record {
    cart = λ p. rw e (h.cart p);
    answered = h.answered;
    synced = λ p. rw e (h.synced p);
    others = h.others;
    hash = rw e h.hash;
  }
  rekeyed requested w (err f) u keys e h = (e ∙ h.0, h.1)

  -- Giving the lock back changes nothing that an update is about.
  unlock-IsUpdate :
      (token : ℕ) (requested : List CartLine) (w : World) (r : Reply (List CartLine)) (u : World)
      → IsUpdate b s session requested w (r, u)
      → IsUpdate b s session requested w (r, (unlock b write_lock token u).1)
  unfolding unlock catch pure
  unlock-IsUpdate token requested w r u h =
      elim (b.redis_lem (Unit {0}) (lock_release write_lock token) u) [
        | inr (e, q) ↦ rw q h
        | inl q ↦ rw q (rekeyed requested w r u _ (lock_release-items token u.keys) h)
      ]

  module _ (token : ℕ) (requested : List CartLine) (w : World) (d : IsHash w.keys.items)
      (sync : InSync session w) where
    untokened :
        (r : Reply (List CartLine)) (u : World)
        → IsUpdate b s session requested (with_token write_lock token w) (r, u)
        → IsUpdate b s session requested w (r, u)
    untokened (ok answer) u h = record {
      cart = h.cart;
      answered = h.answered;
      synced = h.synced;
      others = h.others;
      hash = h.hash;
    }
    untokened (err f) u h = h

    finished-IsUpdate :
        (r : Reply (List CartLine)) (u : World)
        → apply_requested b s session requested (with_token write_lock token w) ≡ (r, u)
        → IsUpdate b s session requested w (r, u)
        → IsUpdate b s session requested w (
            (finally
                  (apply_requested b s session requested >>= λ a. pure (some a))
                  (unlock b write_lock token)
                >>= or_unavailable)
              (with_token write_lock token w))
    unfolding finally or_unavailable ◌>>=◌ pure
    finished-IsUpdate (ok answer) u e h = rw e (unlock-IsUpdate token requested w (ok answer) u h)
    finished-IsUpdate (err f) u e h = rw e (unlock-IsUpdate token requested w (err f) u h)

    locked-IsUpdate :
        IsUnique requested
        → IsUpdate b s session requested w (
            (with_lock b write_lock token s.lock_retries (apply_requested b s session requested)
                >>= or_unavailable)
              w)
    unfolding with_lock finally or_unavailable ◌>>=◌ pure throw
    locked-IsUpdate distinct = elim (acquire-cases b write_lock token s.lock_retries w) [
      | inl (e, q) ↦ rw q (refl, inl ((λ r p. refl), refl))
      | inr (inl q) ↦ rw q (refl, inl ((λ r p. refl), refl))
      | inr (inr q) ↦ rw q (
          finished-IsUpdate
            (apply_requested b s session requested (with_token write_lock token w)).0
            (apply_requested b s session requested (with_token write_lock token w)).1 refl
            (untokened (apply_requested b s session requested (with_token write_lock token w)).0
              (apply_requested b s session requested (with_token write_lock token w)).1
              (apply_requested-IsUpdate b s session (with_token write_lock token w) requested d sync
                distinct)))
    ]

    -- Over any lawful backend, for a cart whose stored quantities are what inventory has accepted
    -- to reserve for the session less what it has accepted to release, whatever the request and
    -- whoever has the lock: if `setLines` returns, then the cart, the answer and what is reserved
    -- for the session have for every product the quantity asked for, or the old one where the
    -- request does not name it, and nothing has changed under any other reference. If it throws,
    -- the cart's quantities are unchanged, and either nothing is moved or logged, or a call of the
    -- rollback was refused: then the log has just the lines that were reserved and released, and
    -- they are still moved, but for those reserved where only the second call was refused.
    pub set_lines-IsUpdate :
        IsUpdate b s session requested w (set_lines b s session token requested w)
    unfolding set_lines check_duplicates ◌>>=◌ pure throw
    set_lines-IsUpdate = elim (duplicates-cases (duplicate_product_ids requested)) [
      | inl e ↦ rw e (locked-IsUpdate ((duplicate_product_ids-nil_iff requested).0 e))
      | inr (p, ps, e) ↦ rw e (refl, inl ((λ r p. refl), refl))
    ]
