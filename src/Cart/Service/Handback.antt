-- ===== src/Cart/Service/Handback.antt =====
-- What a release does to the cart and to what is reserved, once it has both locks.
use practical_microservice.Common.{
  ℕ, ◌+◌, ◌≡◌, ◌⊎◌, inl, inr, refl, ◌∙◌, ap, true, false, List, [], ◌∷◌, Option, none, some, length,
  arith,
}
use practical_microservice.Cart.Types.{
  CartLine, ReleaseOutcome, ReleaseSkip, locked, empty, not_held,
}
use practical_microservice.Cart.Planner.{held_quantities, to_cart_lines}
use practical_microservice.Cart.Store.{Keys, cart_finish, cart_take}
use practical_microservice.Cart.Calls.{
  World, Reply, ok, err, CartError, insufficient_stock, bad_request, conflict, service_unavailable,
  unreachable, Backend, ◌>>=◌, pure, throw, attempt,
}
use practical_microservice.Cart.Repository.{
  Settings, retire, forget, schedule_release, take_held_lines,
}
use practical_microservice.Cart.Service.{release_held, release_failed, release_taken, release_some}
use practical_microservice.Cart.Service.Moves.{SameHolds, Net, IsRefused, release_some-IsMoved}

-- The lines are released under the session, and nothing else is moved.
abbrev pub IsLowered : ℕ → List CartLine → World → World → Type 0
IsLowered session lines w u = Net session [] lines w u

abbrev pub skipped_as : Option ReleaseSkip → ℕ → ReleaseOutcome
skipped_as skip n = record { released = false; skipped = skip; lines = n }

-- Inventory answered a release of the lines, under the session, that it has too few reserved.
abbrev pub IsNotHeld : Backend → ℕ → List CartLine → World → World → Type 0
IsNotHeld b session lines w u =
    (at : World) × (products : List ℕ) × (at.keys.items ≡ w.keys.items)
    × (at.reserved ≡ u.reserved)
    × (at.released ≡ u.released)
    × (b.release_many lines session at ≡ (err (insufficient_stock products), at))

-- Released, not held, empty or locked, with what each comes to.
abbrev pub IsReleased : Backend → ℕ → List CartLine → World → ReleaseOutcome → World → Type 0
IsReleased b session lines w outcome u =
    ((outcome ≡ record { released = true; skipped = none; lines = length lines })
      × (u.keys.items ≡ [])
      × (u.keys.due ≡ none)
      × IsLowered session lines w u)
    ⊎ (((outcome ≡ skipped_as (some not_held) (length lines))
          × (u.keys.items ≡ [])
          × (u.keys.due ≡ none)
          × (SameHolds w u × IsNotHeld b session lines w u))
        ⊎ (((outcome ≡ skipped_as (some empty) 0)
              × (lines ≡ [])
              × (u.keys.items ≡ w.keys.items)
              × (u.keys.due ≡ none)
              × SameHolds w u)
            ⊎ ((outcome ≡ skipped_as (some locked) 0)
                × (u.keys.items ≡ w.keys.items)
                × SameHolds w u)))

abbrev pub IsRelease : Backend → ℕ → List CartLine → World → Reply ReleaseOutcome × World → Type 0
IsRelease b session lines w (ok outcome, u) = IsReleased b session lines w outcome u
IsRelease b session lines w (err e, u) =
    (u.keys.items ≡ w.keys.items)
    × (SameHolds w u ⊎ (IsLowered session lines w u × IsRefused (retire b) w u))

module _ (b : Backend) (s : Settings) (session : ℕ) where
  retry-IsRelease :
      (lines : List CartLine) (w : World) (e : CartError)
      → IsRelease b session lines w
          ((schedule_release b (s.now + s.release_retry_delay) >>= λ _. throw e) w)
  unfolding schedule_release ◌>>=◌ throw
  retry-IsRelease lines w e =
      elim (b.redis_lem (Unit {0})
        (λ keys. (tt, record keys { due = some (s.now + s.release_retry_delay) })) w) [
          | inr (f, q) ↦ rw q (refl, inl (λ r p. refl))
          | inl q ↦ rw q (refl, inl (λ r p. refl))
        ]

  release_failed-IsRelease :
      (lines : List CartLine) (w : World) (e : CartError)
      → b.release_many lines session w ≡ (err e, w)
      → IsRelease b session lines w (release_failed b s session lines e w)
  unfolding release_failed retire schedule_release cart_finish ◌>>=◌ throw pure
  release_failed-IsRelease lines w (insufficient_stock products) refused =
      elim (b.redis_lem (Unit {0}) cart_finish w) [
        | inr (f, q) ↦ rw q (refl, inl (λ r p. refl))
        | inl q ↦ rw q (
            inr (inl (refl, refl, refl, ((λ r p. refl), (w, products, refl, refl, refl, refused)))))
      ]
  release_failed-IsRelease lines w (bad_request ps) refused =
      retry-IsRelease lines w (bad_request ps)
  release_failed-IsRelease lines w conflict refused = retry-IsRelease lines w conflict
  release_failed-IsRelease lines w service_unavailable refused =
      retry-IsRelease lines w service_unavailable
  release_failed-IsRelease lines w unreachable refused = retry-IsRelease lines w unreachable

  release_held-IsRelease :
      (x : CartLine) (xs : List CartLine) (w : World)
      → IsRelease b session (x ∷ xs) w (release_held b s session (x ∷ xs) w)
  unfolding release_held release_some retire cart_finish attempt ◌>>=◌ pure
  release_held-IsRelease x xs w = elim (release_some-IsMoved b s session (x ∷ xs) w) [
    | inr (e, q) ↦ rw q (release_failed-IsRelease (x ∷ xs) w e q)
    | inl (u, q, m) ↦ elim (b.redis_lem (Unit {0}) cart_finish u) [
      | inr (f, g) ↦ rw q (
          rw g (
            ap (λ k. k.items) m.keys,
            inr (m.holds, (u, ap (λ k. k.items) m.keys, m.log, refl, refl, (f, rw g refl))),
          ))
      | inl g ↦ rw q (rw g (inl (refl, refl, refl, m.holds)))
    ]
  ]

  release_taken-IsRelease :
      (lines : List CartLine) (w : World)
      → IsRelease b session lines w (release_taken b s session lines w)
  unfolding release_taken forget ◌>>=◌ pure
  release_taken-IsRelease [] w =
      elim (b.redis_lem (Unit {0}) (λ keys. (tt, record keys { due = none })) w) [
        | inr (e, q) ↦ rw q (refl, inl (λ r p. refl))
        | inl q ↦ rw q (inr (inr (inl (refl, refl, refl, refl, λ r p. refl))))
      ]
  release_taken-IsRelease (x ∷ xs) w = release_held-IsRelease x xs w

  -- The lines to hand back are those of the cart when they are taken.
  abbrev pub owed : World → List CartLine
  owed w = to_cart_lines (held_quantities w.keys.items)

  retaken-IsRelease :
      (lines : List CartLine) (w : World) (keys : Keys) (r : Reply ReleaseOutcome × World)
      → keys.items ≡ w.keys.items
      → IsRelease b session lines (record w { keys = keys }) r
      → IsRelease b session lines w r
  retaken-IsRelease lines w keys (ok outcome, u) e (inl h) = inl h
  retaken-IsRelease lines w keys (ok outcome, u) e
        (inr (inl (a, c, d, (f, (at, products, i, m, n, refused))))) =
      inr (inl (a, c, d, (f, (at, products, i ∙ e, m, n, refused))))
  retaken-IsRelease lines w keys (ok outcome, u) e (inr (inr (inl (a, none_owed, c, d, f)))) =
      inr (inr (inl (a, none_owed, c ∙ e, d, f)))
  retaken-IsRelease lines w keys (ok outcome, u) e (inr (inr (inr (a, c, d)))) =
      inr (inr (inr (a, c ∙ e, d)))
  retaken-IsRelease lines w keys (err f, u) e (a, inl c) = (a ∙ e, inl c)
  retaken-IsRelease lines w keys (err f, u) e (a, inr (c, (at, i, l, m, n, refused))) =
      (a ∙ e, inr (c, (at, i ∙ e, l, m, n, refused)))

  cart_take-items : (w : World) → (cart_take s.grace w.keys).1.items ≡ w.keys.items
  unfolding cart_take
  cart_take-items w = ground arith

  cart_take-reply : (w : World) → (cart_take s.grace w.keys).0 ≡ w.keys.items
  unfolding cart_take
  cart_take-reply w = refl

  pub take-IsRelease :
      (w : World)
      → IsRelease b session (owed w) w ((take_held_lines b s >>= release_taken b s session) w)
  unfolding take_held_lines ◌>>=◌ pure
  take-IsRelease w = elim (b.redis_lem _ (cart_take s.grace) w) [
    | inr (e, q) ↦ rw q (refl, inl (λ r p. refl))
    | inl q ↦
        let keys = (cart_take s.grace w.keys).1 in
        rw q (
          rw (cart_take-reply w) (
            retaken-IsRelease (owed w) w keys
              (release_taken b s session (owed w) (record w { keys = keys })) (cart_take-items w)
              (release_taken-IsRelease (owed w) (record w { keys = keys }))))
  ]
