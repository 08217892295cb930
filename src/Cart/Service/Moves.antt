-- ===== src/Cart/Service/Moves.antt =====
-- The calls of the service that move stock, and a rollback, over any lawful backend.
use practical_microservice.Common.{
  ℕ, ◌+◌, ◌≡◌, ◌⊎◌, inl, inr, refl, ◌∙◌, ap, List, [], ◌∷◌, ◌==◌, if◌then◌else◌, arith,
}
use practical_microservice.Cart.Types.{CartLine}
use practical_microservice.Cart.Planner.Plan.{total}
use practical_microservice.Cart.Calls.{
  log_error, World, ok, rollback_failed, Call, Backend, Refuses, ◌>>=◌, ◌>>◌, pure, catch,
}
use practical_microservice.Cart.Repository.{Settings}
use practical_microservice.Cart.Service.{reserve_some, release_some, rollback}

-- What is reserved less what is released is as before, under every reference.
abbrev pub SameHolds : World → World → Type 0
SameHolds w u = (r p : ℕ) → u.reserved r p + w.released r p ≡ w.reserved r p + u.released r p

-- From `w` to `u`, what is reserved less what is released is more by what was reserved and less by
-- what was released under the session, and the same under every other reference.
abbrev pub Net : ℕ → List CartLine → List CartLine → World → World → Type 0
Net session reserved released w u =
    (r p : ℕ)
    → u.reserved r p + w.released r p + (if r == session then total p released else 0)
      ≡ w.reserved r p + u.released r p + (if r == session then total p reserved else 0)

pub record IsMoved (session : ℕ) (reserved released : List CartLine) (w u : World) : Type 0 where
  pub keys : u.keys ≡ w.keys
  pub log : u.log ≡ w.log
  pub holds : Net session reserved released w u

-- A call that was refused on the way from `w` to `u`: on the cart of `w`, with the units of `u`.
abbrev pub IsRefused : {A : Type 0} → Call A → World → World → Type 0
IsRefused m w u =
    (at : World) × (at.keys.items ≡ w.keys.items)
    × (at.log ≡ w.log)
    × (at.reserved ≡ u.reserved)
    × (at.released ≡ u.released)
    × Refuses m at

module _ (b : Backend) (s : Settings) (session : ℕ) where
  -- A rollback that did not succeed: its lines are logged, and either the release of what was
  -- reserved was refused, and everything is still as it was moved, or the release was accepted and
  -- the reservation of what was released was refused.
  abbrev pub IsStranded : List CartLine → List CartLine → World → World → Type 0
  IsStranded reserved released w u =
      (u.log ≡ rollback_failed session reserved released ∷ w.log)
      × ((IsRefused (release_some b s session reserved) w u × Net session reserved released w u)
          ⊎ (IsRefused (reserve_some b s session released) w u × Net session [] released w u))

  -- What a rollback comes to: nothing is moved or logged, or it did not succeed.
  pub record IsUndone (reserved released : List CartLine) (w u : World) : Type 0 where
    pub keys : u.keys ≡ w.keys
    pub holds : (SameHolds w u × (u.log ≡ w.log)) ⊎ IsStranded reserved released w u

pub IsMoved-trans :
    (session : ℕ) (reserved released : List CartLine) (w u v : World)
    → IsMoved session reserved [] w u
    → IsMoved session [] released u v
    → IsMoved session reserved released w v
IsMoved-trans session reserved released w u v m n = record {
  keys = n.keys ∙ m.keys;
  log = n.log ∙ m.log;
  holds = λ r p. omega (arith, m.holds r p, n.holds r p);
}

module _ (b : Backend) (s : Settings) (session : ℕ) where
  pub reserve_some-IsMoved :
      (lines : List CartLine) (u : World)
      → ((v : World) × (reserve_some b s session lines u ≡ (ok tt, v))
          × IsMoved session lines [] u v)
        ⊎ Refuses (reserve_some b s session lines) u
  unfolding reserve_some pure
  reserve_some-IsMoved [] u = inl (u, refl, record { keys = refl; log = refl; holds = λ r p. refl })
  reserve_some-IsMoved (x ∷ xs) u = elim (b.reserve_many_lem (x ∷ xs) session u) [
    | inl e ↦ inl (_, e, record { keys = refl; log = refl; holds = λ r p. ground arith })
    | inr h ↦ inr h
  ]

  pub release_some-IsMoved :
      (lines : List CartLine) (u : World)
      → ((v : World) × (release_some b s session lines u ≡ (ok tt, v))
          × IsMoved session [] lines u v)
        ⊎ Refuses (release_some b s session lines) u
  unfolding release_some pure
  release_some-IsMoved [] u = inl (u, refl, record { keys = refl; log = refl; holds = λ r p. refl })
  release_some-IsMoved (x ∷ xs) u = elim (b.release_many_lem (x ∷ xs) session u) [
    | inl e ↦ inl (_, e, record { keys = refl; log = refl; holds = λ r p. ground arith })
    | inr h ↦ inr h
  ]

  -- The body of a rollback, from a state that differs from `w` by what was moved.
  undo :
      (reserved released : List CartLine) (w u : World)
      → IsMoved session reserved released w u
      → (v : World) × (catch
            (release_some b s session reserved >> reserve_some b s session released)
            (λ e. log_error (rollback_failed session reserved released))
            u
          ≡ (ok tt, v))
        × IsUndone b s session reserved released w v
  unfolding log_error catch ◌>>=◌
  undo reserved released w u m =
      let entry = rollback_failed session reserved released in
      elim (release_some-IsMoved reserved u) [
        | inr (e, q) ↦ (
          record u { log = entry ∷ u.log },
          rw q refl,
          record {
            keys = m.keys;
            holds = inr (
              ap (λ l. entry ∷ l) m.log,
              inl ((u, ap (λ k. k.items) m.keys, m.log, refl, refl, (e, q)), m.holds),
            );
          },
        )
        | inl (v, q, n) ↦ elim (reserve_some-IsMoved released v) [
          | inr (e, q') ↦ (
            record v { log = entry ∷ v.log },
            rw q (rw q' refl),
            record {
              keys = n.keys ∙ m.keys;
              holds = inr (
                ap (λ l. entry ∷ l) (n.log ∙ m.log),
                inr (
                  (v, ap (λ k. k.items) (n.keys ∙ m.keys), n.log ∙ m.log, refl, refl, (e, q')),
                  λ r p. omega (arith, m.holds r p, n.holds r p),
                ),
              );
            },
          )
          | inl (x, q', n') ↦ (
            x,
            rw q (rw q' refl),
            record {
              keys = n'.keys ∙ n.keys ∙ m.keys;
              holds = inl (
                (λ r p. omega (arith, m.holds r p, n.holds r p, n'.holds r p)),
                n'.log ∙ n.log ∙ m.log,
              );
            },
          )
        ]
      ]

  pub rollback-IsUndone :
      (reserved released : List CartLine) (w u : World)
      → IsMoved session reserved released w u
      → (v : World) × (rollback b s session reserved released u ≡ (ok tt, v))
        × IsUndone b s session reserved released w v
  unfolding rollback pure
  rollback-IsUndone [] [] w u m =
      (u, refl, record { keys = m.keys; holds = inl ((λ r p. omega (arith, m.holds r p)), m.log) })
  rollback-IsUndone (x ∷ xs) released w u m = undo (x ∷ xs) released w u m
  rollback-IsUndone [] (y ∷ ys) w u m = undo [] (y ∷ ys) w u m

  -- Nothing to roll back cannot fail to be rolled back.
  pub kept_when_nothing :
      (w u : World) → IsUndone b s session [] [] w u → SameHolds w u × (u.log ≡ w.log)
  unfolding release_some reserve_some pure
  kept_when_nothing w u undone = elim undone.holds [
    | inl kept ↦ kept
    | inr (log, inl ((at, i, l, m, n, (e, q)), net)) ↦ absurd (ground arith)
    | inr (log, inr ((at, i, l, m, n, (e, q)), net)) ↦ absurd (ground arith)
  ]
