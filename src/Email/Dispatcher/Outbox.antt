-- ===== src/Email/Dispatcher/Outbox.antt =====
-- A dispatch cycle over an outbox of one message.
use practical_microservice.Common.{
  ℕ, zero, suc, ◌<◌, ◌≡◌, refl, Bool, true, false, not, leb, ◌&&◌, ◌||◌, List, [], ◌∷◌, ◌==◌, inl,
  inr, find, filter, arith, Bool-cases, if◌then◌else◌,
}
use practical_microservice.Common.Calls.{ok, in_memory, ◌>>=◌, either_way}
use practical_microservice.Common.Rows.{update_where, update_first, take}
use practical_microservice.Email.Tables.{EmailMessage, IdempotencyKey, Tables}
use practical_microservice.Email.Backoff.{Draw, next_attempt_at}
use practical_microservice.Email.Repository.{
  ClaimOptions, is_due, is_candidate, by_next_attempt, claimed, is_claimed, sent_row, retry_row,
  dead_row, claim_due, stamp, attempt, mark_sent, mark_for_retry, mark_dead, update_message,
}
use practical_microservice.Email.Dispatcher.{
  DispatcherOptions, DeliveryOutcome, SendOutcome, accepted, refused, crashed, record_failure,
  conclude, deliver, deliver_all, run_once,
}

module _ (keys : List IdempotencyKey) where
  abbrev pub outbox : EmailMessage → Tables
  outbox m = record { messages = m ∷ []; keys = keys }

  same_number : (n : ℕ) → (n == n) ≡ true
  same_number n = ground arith

  take_one : (n : ℕ) (m : EmailMessage) → 0 < n → take n (m ∷ []) ≡ m ∷ []
  take_one zero m h = absurd (omega arith)
  take_one (suc zero) m h = refl
  take_one (suc (suc n)) m h = refl

  take_none : (n : ℕ) → take {R = EmailMessage} n [] ≡ []
  take_none zero = refl
  take_none (suc n) = refl

  claimed-IsClaimed :
      (options : ClaimOptions) (m : EmailMessage) → is_claimed options (claimed options m) ≡ true
  unfolding is_claimed
  claimed-IsClaimed options m = ground arith

  pub claim_due-due :
      (options : ClaimOptions) (m : EmailMessage)
      → 0 < options.limit
      → is_due options m ≡ true
      → claim_due in_memory options (outbox m)
        ≡ (ok (claimed options m ∷ []), outbox (claimed options m))
  unfolding claim_due stamp attempt ◌>>=◌
  claim_due-due options m some_limit due =
      let found : take options.limit (by_next_attempt (filter (is_due options) (m ∷ []))) ≡ m ∷ [] =
        rw (filter, due, take_one options.limit m some_limit) refl in
      let chosen : (is_candidate (m ∷ []) m.id && is_due options m) ≡ true =
        rw (same_number m.id, due) refl in
      let mine : filter (is_claimed options) (claimed options m ∷ []) ≡ claimed options m ∷ [] =
        rw (filter, claimed-IsClaimed options m) refl in
      rw (claim_due, ◌>>=◌, attempt, found, stamp, update_where, found, chosen, mine) refl

  pub claim_due-not_due :
      (options : ClaimOptions) (m : EmailMessage)
      → is_due options m ≡ false
      → claim_due in_memory options (outbox m) ≡ (ok [], outbox m)
  unfolding claim_due stamp attempt ◌>>=◌
  claim_due-not_due options m rest =
      rw (claim_due, ◌>>=◌, attempt, filter, rest, take_none options.limit) refl

  module _ (options : DispatcherOptions) (now : ℕ) (draw : Draw) where
    -- What the outcome of a delivery makes of the row.
    abbrev after_failure : EmailMessage → ℕ → Bool → EmailMessage
    after_failure m reason retryable =
        if not retryable || leb m.max_attempts m.attempts
        then dead_row reason m
        else retry_row reason (next_attempt_at m.attempts options.backoff draw now) m

    abbrev pub concluded : EmailMessage → SendOutcome → EmailMessage
    concluded m (accepted provider id) = sent_row provider id now m
    concluded m (refused reason retryable) = after_failure m reason retryable
    concluded m (crashed reason) = after_failure m reason true

    update_one :
        (m : EmailMessage) (f : EmailMessage → EmailMessage)
        → update_message m.id f (outbox m) ≡ (ok (f m), outbox (f m))
    unfolding update_message
    update_one m f =
        rw (update_message, find, same_number m.id, update_first, same_number m.id) refl

    fails_to :
        (m : EmailMessage) (reason : ℕ) (retryable : Bool)
        → (outcome : DeliveryOutcome) × (record_failure in_memory options now draw m reason
              retryable
              (outbox m)
            ≡ (ok outcome, outbox (after_failure m reason retryable)))
    unfolding record_failure mark_dead mark_for_retry attempt either_way
    fails_to m reason retryable =
        elim (Bool-cases (not retryable || leb m.max_attempts m.attempts)) [
          | inl e ↦ (DeliveryOutcome.dead, rw (e, update_one m (dead_row reason)) refl)
          | inr e ↦ (
            DeliveryOutcome.retrying,
            rw
                (
                  e,
                  update_one m
                      (retry_row reason (next_attempt_at m.attempts options.backoff draw now)),
                )
                refl,
          )
        ]

    conclude_to :
        (m : EmailMessage) (answer : SendOutcome)
        → (outcome : DeliveryOutcome) × (conclude in_memory options now draw m answer (outbox m)
            ≡ (ok outcome, outbox (concluded m answer)))
    unfolding conclude mark_sent attempt either_way
    conclude_to m (accepted provider id) =
        (DeliveryOutcome.sent, rw (update_one m (sent_row provider id now)) refl)
    conclude_to m (refused reason retryable) = fails_to m reason retryable
    conclude_to m (crashed reason) = fails_to m reason true

    abbrev pub claim_options : ClaimOptions
    claim_options = record {
      limit = options.batch_size;
      worker_id = options.worker_id;
      claim_timeout_ms = options.claim_timeout_ms;
      now = now;
    }

    pub run_once-due :
        (answer : SendOutcome) (m : EmailMessage)
        → 0 < options.batch_size
        → is_due claim_options m ≡ true
        → (run_once in_memory options now draw (λ x. answer) (outbox m)).1
          ≡ outbox (concluded (claimed claim_options m) answer)
    unfolding run_once deliver_all deliver ◌>>=◌
    run_once-due answer m some_batch due =
        let (outcome, h) = conclude_to (claimed claim_options m) answer in
        rw (claim_due-due claim_options m some_batch due, h) refl

    pub run_once-not_due :
        (answer : SendOutcome) (m : EmailMessage)
        → is_due claim_options m ≡ false
        → (run_once in_memory options now draw (λ x. answer) (outbox m)).1 ≡ outbox m
    unfolding run_once deliver_all ◌>>=◌
    run_once-not_due answer m rest = rw (claim_due-not_due claim_options m rest) refl
