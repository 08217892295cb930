-- ===== src/Cart/Service/Checkout.antt =====
-- What a checkout does to the cart and to what is reserved.
use practical_microservice.Common.{
  ℕ, ◌+◌, ◌≡◌, ◌⊎◌, inl, inr, refl, ◌∙◌, ap, List, [], ◌∷◌, none, some, ◌==◌, if◌then◌else◌, arith,
}
use practical_microservice.Cart.Types.{CartLine, CheckoutResult}
use practical_microservice.Cart.Planner.{held_quantities, to_cart_lines}
use practical_microservice.Cart.Planner.Plan.{total}
use practical_microservice.Cart.Store.{cart_discard}
use practical_microservice.Cart.Calls.{
  World, Reply, ok, err, Call, restore_failed, Backend, Refuses, ◌>>=◌, pure, throw, catch,
  log_error,
}
use practical_microservice.Cart.Transfer.{transfer_hold, restore_hold}
use practical_microservice.Cart.Repository.{
  Settings, lines, held, discard, write_lock, lock_release, unlock, with_lock, finally,
}
use practical_microservice.Cart.Service.{hand_over, checkout, or_unavailable, reserve_some}
use practical_microservice.Cart.Service.Moves.{
  SameHolds, Net, IsMoved, IsRefused, reserve_some-IsMoved,
}
use practical_microservice.Cart.Service.Request.{with_token, acquire-cases}

-- The units of some lines went from one reference to another, and nothing else happened.
pub record IsTransferred (moved : List CartLine) (from to : ℕ) (w u : World) : Type 0 where
  pub log : u.log ≡ w.log
  pub holds :
      (r p : ℕ)
      → u.reserved r p + w.released r p + (if r == from then total p moved else 0)
        ≡ w.reserved r p + u.released r p + (if r == to then total p moved else 0)

module _ (b : Backend) where
  -- A failed transfer: as before; or the units are released, and the call that was to reserve them
  -- again where they were was refused and is logged.
  abbrev pub IsKept : List CartLine → ℕ → ℕ → World → World → Type 0
  IsKept moved from to w u =
      (SameHolds w u × (u.log ≡ w.log))
      ⊎ ((u.log ≡ restore_failed from to ∷ w.log)
          × IsRefused (b.reserve_many moved from) w u
          × Net from [] moved w u)

  abbrev pub IsTransfer : List CartLine → ℕ → ℕ → World → Reply (Unit {0}) × World → Type 0
  IsTransfer moved from to w (ok done, u) = (u.keys ≡ w.keys) × IsTransferred moved from to w u
  IsTransfer moved from to w (err e, u) = (u.keys ≡ w.keys) × IsKept moved from to w u

bulk_release-IsMoved :
    (b : Backend) (from : ℕ) (lines : List CartLine) (u : World)
    → ((v : World) × (b.bulk_release lines from u ≡ (ok tt, v)) × IsMoved from [] lines u v)
      ⊎ Refuses (b.bulk_release lines from) u
bulk_release-IsMoved b from lines u = elim (b.bulk_release_lem lines from u) [
  | inl e ↦ inl (_, e, record { keys = refl; log = refl; holds = λ r p. ground arith })
  | inr h ↦ inr h
]

module _ (b : Backend) (s : Settings) (x : CartLine) (xs : List CartLine) (from to : ℕ)
    (w : World) where
  transfer_hold-IsTransfer : IsTransfer b (x ∷ xs) from to w (transfer_hold b (x ∷ xs) from to w)
  unfolding transfer_hold restore_hold reserve_some catch log_error ◌>>=◌ throw
  transfer_hold-IsTransfer = elim (bulk_release-IsMoved b from (x ∷ xs) w) [
    | inr (e, q) ↦ rw q (refl, inl ((λ r p. refl), refl))
    | inl (u, q, m) ↦ elim (reserve_some-IsMoved b s to (x ∷ xs) u) [
      | inl (v, f, n) ↦ rw q (
          rw f (
            n.keys ∙ m.keys,
            record { log = n.log ∙ m.log; holds = λ r p. ground (arith, m.holds r p, n.holds r p) },
          ))
      | inr (e, f) ↦ elim (reserve_some-IsMoved b s from (x ∷ xs) u) [
        | inl (v, g, n) ↦ rw q (
            rw f (
              rw g (
                n.keys ∙ m.keys,
                inl ((λ r p. ground (arith, m.holds r p, n.holds r p)), n.log ∙ m.log),
              )))
        | inr (e', g) ↦ rw q (
            rw f (
              rw g (
                m.keys,
                inr (
                  ap (λ l. restore_failed from to ∷ l) m.log,
                  (u, ap (λ k. k.items) m.keys, m.log, refl, refl, (e', g)),
                  m.holds,
                ),
              )))
      ]
    ]
  ]

-- The answer, the hold and the cart after a checkout of `held_lines`. If the last step, which ends
-- the cart, is refused, the hold has moved but the cart is still there.
abbrev pub IsCheckout :
    Backend → ℕ → ℕ → List CartLine → World → Reply CheckoutResult × World → Type 0
IsCheckout b session order held_lines w (ok result, u) =
    (result ≡ record { cart_session_id = session; order_id = order; lines = held_lines })
    × IsTransferred held_lines session order w u
    × (u.keys.items ≡ [])
    × (u.keys.session ≡ none)
    × (u.keys.due ≡ none)
IsCheckout b session order held_lines w (err e, u) =
    (u.keys.items ≡ w.keys.items)
    × (IsKept b held_lines session order w u
        ⊎ (IsTransferred held_lines session order w u × IsRefused (discard b) w u))

module _ (b : Backend) (s : Settings) (session order : ℕ) where
  handed-IsCheckout :
      (x : CartLine) (xs : List CartLine) (w : World) (r : Reply (Unit {0})) (u : World)
      → transfer_hold b (x ∷ xs) session order w ≡ (r, u)
      → IsTransfer b (x ∷ xs) session order w (r, u)
      → IsCheckout b session order (x ∷ xs) w (hand_over b s session order (x ∷ xs) w)
  unfolding hand_over discard cart_discard ◌>>=◌ throw pure
  handed-IsCheckout x xs w (err e) u q (kept, h) = rw q (ap (λ k. k.items) kept, inl h)
  handed-IsCheckout x xs w (ok done) u q (kept, m) = elim (b.redis_lem (Unit {0}) cart_discard u) [
    | inr (e, f) ↦ rw q (
        rw f
          (ap (λ k. k.items) kept, inr (m, (u, ap (λ k. k.items) kept, m.log, refl, refl, (e, f)))))
    | inl f ↦ rw q (rw f (refl, record { log = m.log; holds = m.holds }, refl, refl, refl))
  ]

  hand_over-IsCheckout :
      (held_lines : List CartLine) (w : World)
      → IsCheckout b session order held_lines w (hand_over b s session order held_lines w)
  unfolding hand_over throw
  hand_over-IsCheckout [] w = (refl, inl (inl ((λ r p. refl), refl)))
  hand_over-IsCheckout (x ∷ xs) w =
      handed-IsCheckout x xs w (transfer_hold b (x ∷ xs) session order w).0
        (transfer_hold b (x ∷ xs) session order w).1 refl
        (transfer_hold-IsTransfer b s x xs session order w)

  lines-IsCheckout :
      (w : World)
      → IsCheckout b session order
          (to_cart_lines (held_quantities w.keys.items))
          w
          ((lines b >>= hand_over b s session order) w)
  unfolding lines held ◌>>=◌ pure
  lines-IsCheckout w = elim (b.redis_lem (List CartLine) (λ k. (held_quantities k.items, k)) w) [
    | inr (e, q) ↦ rw q (refl, inl (inl ((λ r p. refl), refl)))
    | inl q ↦ rw q (hand_over-IsCheckout (to_cart_lines (held_quantities w.keys.items)) w)
  ]

  module _ (token : ℕ) (held_lines : List CartLine) (w : World) where
    lock_release-IsCheckout :
        (r : Reply CheckoutResult) (u : World)
        → IsCheckout b session order held_lines w (r, u)
        → IsCheckout b session order held_lines w
            (r, record u { keys = (lock_release write_lock token u.keys).1 })
    unfolding lock_release
    lock_release-IsCheckout (ok result) u (same, m, items, gone, off) =
        (same, record { log = m.log; holds = m.holds }, ground arith, ground arith, ground arith)
    lock_release-IsCheckout (err e) u (same, inl h) = (ground arith, inl h)
    lock_release-IsCheckout (err e) u (same, inr (m, refused)) =
        (ground arith, inr (record { log = m.log; holds = m.holds }, refused))

    unlock-IsCheckout :
        (r : Reply CheckoutResult) (u : World)
        → IsCheckout b session order held_lines w (r, u)
        → IsCheckout b session order held_lines w (r, (unlock b write_lock token u).1)
    unfolding unlock catch pure
    unlock-IsCheckout r u h = elim (b.redis_lem (Unit {0}) (lock_release write_lock token) u) [
      | inr (e, q) ↦ rw q h
      | inl q ↦ rw q (lock_release-IsCheckout r u h)
    ]

    untoken-IsCheckout :
        (r : Reply CheckoutResult) (u : World)
        → IsCheckout b session order held_lines (with_token write_lock token w) (r, u)
        → IsCheckout b session order held_lines w (r, u)
    untoken-IsCheckout (ok result) u (same, m, items, gone, off) =
        (same, record { log = m.log; holds = m.holds }, items, gone, off)
    untoken-IsCheckout (err e) u (same, inl h) = (same, inl h)
    untoken-IsCheckout (err e) u (same, inr (m, refused)) =
        (same, inr (record { log = m.log; holds = m.holds }, refused))

    finished-IsCheckout :
        (work : Call CheckoutResult) (r : Reply CheckoutResult) (u : World)
        → work (with_token write_lock token w) ≡ (r, u)
        → IsCheckout b session order held_lines w (r, u)
        → IsCheckout b session order held_lines w (
            (finally (work >>= λ a. pure (some a)) (unlock b write_lock token) >>= or_unavailable)
              (with_token write_lock token w))
    unfolding finally or_unavailable ◌>>=◌ pure
    finished-IsCheckout work (ok result) u e h = rw e (unlock-IsCheckout (ok result) u h)
    finished-IsCheckout work (err f) u e h = rw e (unlock-IsCheckout (err f) u h)

  -- Over any lawful backend, whoever has the lock: a checkout that returns hands the order exactly
  -- the lines of the cart, has moved just their units from the session's reference to the order's,
  -- and has ended the cart, its session and its place in the queue. One that throws leaves the lines
  -- in the cart, and either everything reserved as it was and nothing logged; or the cart's units
  -- released, where the call to reserve them for the session again was refused and is logged; or
  -- the units with the order, where the call that was to end the cart was refused.
  pub checkout-IsCheckout :
      (token : ℕ) (w : World)
      → IsCheckout b session order
          (to_cart_lines (held_quantities w.keys.items))
          w
          (checkout b s session token order w)
  unfolding checkout with_lock or_unavailable ◌>>=◌ pure throw
  checkout-IsCheckout token w =
      let held_lines = to_cart_lines (held_quantities w.keys.items) in
      let locked = with_token write_lock token w in
      let work = lines b >>= hand_over b s session order in
      elim (acquire-cases b write_lock token s.lock_retries w) [
        | inl (e, q) ↦ rw q (refl, inl (inl ((λ r p. refl), refl)))
        | inr (inl q) ↦ rw q (refl, inl (inl ((λ r p. refl), refl)))
        | inr (inr q) ↦ rw q (
            finished-IsCheckout token held_lines w work (work locked).0 (work locked).1 refl (
              untoken-IsCheckout token held_lines w (work locked).0 (work locked).1
                (lines-IsCheckout locked)))
      ]
