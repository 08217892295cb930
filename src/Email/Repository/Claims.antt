-- ===== src/Email/Repository/Claims.antt =====
-- `claimDue`: the messages that another worker holds.
use practical_microservice.Common.{
  ℕ, ◌+◌, ◌≤◌, ◌≡◌, refl, ◌∙◌, ◌⊎◌, Bool, false, ◌&&◌, List, some, inl, inr, find, filter, arith,
  Bool-cases,
}
use practical_microservice.Common.Calls.{ok, Client, ◌>>=◌}
use practical_microservice.Common.Rows.{update_where, find-update_where, take}
use practical_microservice.Email.Errors.{PrismaError}
use practical_microservice.Email.Tables.{sending, EmailMessage, Tables}
use practical_microservice.Email.Repository.{
  ClaimOptions, message_has, is_due, is_candidate, is_empty, by_next_attempt, claimed, is_claimed,
  stamp, statement, attempt, claim_due,
}

module _ (db : Client Tables PrismaError) (options : ClaimOptions) (t : Tables) where
  abbrev stamped : List EmailMessage → Tables
  stamped candidates = record t {
    messages =
        update_where (λ m. is_candidate candidates m.id && is_due options m) (claimed options)
          t.messages;
  }

  stamp-cases :
      (candidates : List EmailMessage)
      → (out : Tables) × (((statement db (stamp options candidates) >>= λ _.
              statement db
                (λ s. (ok (by_next_attempt (filter (is_claimed options) s.messages)), s)))
            t).1
          ≡ out)
        × ((out ≡ t) ⊎ (out ≡ stamped candidates))
  unfolding attempt stamp ◌>>=◌
  stamp-cases candidates = elim (db.run_lem (Unit {0}) (stamp options candidates) t) [
    | inr (x, e) ↦ (t, rw e refl, inl refl)
    | inl e ↦
        elim (db.run_lem (List EmailMessage)
          (λ s. (ok (by_next_attempt (filter (is_claimed options) s.messages)), s))
          (stamped candidates)) [
            | inl k ↦ (stamped candidates, rw (e, k) refl, inr refl)
            | inr (x, k) ↦ (stamped candidates, rw (e, k) refl, inr refl)
          ]
  ]

  claim_due-cases :
      ((claim_due db options t).1 ≡ t)
      ⊎ ((candidates : List EmailMessage) × ((claim_due db options t).1 ≡ stamped candidates))
  unfolding claim_due attempt ◌>>=◌
  claim_due-cases =
      let candidates = take options.limit (by_next_attempt (filter (is_due options) t.messages)) in
      elim (db.run_lem (List EmailMessage)
        (λ s. (ok (take options.limit (by_next_attempt (filter (is_due options) s.messages))), s))
        t) [
          | inr (x, e) ↦ inl (rw e refl)
          | inl e ↦ elim (Bool-cases (is_empty candidates)) [
            | inl k ↦ inl (rw (e, k) refl)
            | inr k ↦
                let (out, h, end) = stamp-cases candidates in
                elim end [
                  | inl l ↦ inl (rw (e, k) (h ∙ l))
                  | inr l ↦ inr (candidates, rw (e, k) (h ∙ l))
                ]
          ]
        ]

  not_due_row :
      (r : EmailMessage)
      → find (message_has r.id) t.messages ≡ some r
      → is_due options r ≡ false
      → find (message_has r.id) (claim_due db options t).1.messages ≡ some r
  not_due_row r found rest = elim claim_due-cases [
    | inl e ↦ rw e found
    | inr (candidates, e) ↦ rw e (
        find-update_where (message_has r.id) (λ m. is_candidate candidates m.id && is_due options m)
          (claimed options) t.messages r (λ x. refl)
          (rw rest (and_false (is_candidate candidates r.id))) found)
  ]
    where
      and_false : (b : Bool) → (b && false) ≡ false
      and_false b = ground arith

  -- A claim leaves a message alone that another worker holds, over any client and whichever of its
  -- statements are refused: while the holder's claim has not timed out, its row, with the holder in
  -- it, is as before.
  pub claim_due-leaves_held :
      (r : EmailMessage) (at : ℕ)
      → find (message_has r.id) t.messages ≡ some r
      → r.status ≡ sending
      → r.locked_at ≡ some at
      → options.now ≤ at + options.claim_timeout_ms
      → find (message_has r.id) (claim_due db options t).1.messages ≡ some r
  unfolding is_due
  claim_due-leaves_held r at found held locked early =
      not_due_row r found (rw (is_due, held, locked) (ground arith))
