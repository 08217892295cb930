-- ===== src/Email/Dispatcher.antt =====
-- `EmailDispatcher`: services/email/src/modules/email/email.dispatcher.ts. The messages of a cycle
-- are delivered one after the other here: they are different rows, so their order does not matter.
pub mod Outbox
pub mod Settles
pub mod Orphans
use practical_microservice.Common.{
  ℕ, zero, suc, ◌+◌, ◌-◌, ◌*◌, Bool, true, false, not, ltb, leb, ◌&&◌, ◌||◌, List, [], ◌∷◌, Option,
  none, some, if◌then◌else◌, length,
}
use practical_microservice.Common.Calls.{Client, pure, ◌>>=◌, either_way}
use practical_microservice.Common.Rows.{count}
use practical_microservice.Email.Errors.{AppError, PrismaError}
use practical_microservice.Email.Tables.{EmailMessage, Tables}
use practical_microservice.Email.Backoff.{BackoffOptions, Draw, next_attempt_at}
use practical_microservice.Email.Repository.{
  Query, ClaimOptions, claim_due, mark_sent, mark_for_retry, mark_dead, purge_sent_before,
}

pub record DispatcherOptions : Type 0 where
  pub batch_size : ℕ
  pub poll_interval_ms : ℕ
  pub claim_timeout_ms : ℕ
  pub backoff : BackoffOptions
  pub retention_days : ℕ
  pub worker_id : ℕ

pub data DeliveryOutcome : Type 0 where
  sent retrying dead : DeliveryOutcome

pub record DispatchSummary : Type 0 where
  pub claimed : ℕ
  pub sent : ℕ
  pub retrying : ℕ
  pub dead : ℕ

-- What a provider does with a message: it takes it under an id of its own, refuses it with a reason
-- and whether trying again may help, or throws.
pub data SendOutcome : Type 0 where
  accepted : ℕ → ℕ → SendOutcome
  refused : ℕ → Bool → SendOutcome
  crashed : ℕ → SendOutcome

abbrev pub is_outcome : DeliveryOutcome → DeliveryOutcome → Bool
is_outcome sent sent = true
is_outcome retrying retrying = true
is_outcome dead dead = true
is_outcome _ _ = false

module _ (db : Client Tables PrismaError) (options : DispatcherOptions) (now : ℕ)
    (draw : Draw) where
  -- A failure to record the outcome is only logged.
  unfoldable pub record_failure : EmailMessage → ℕ → Bool → Query DeliveryOutcome
  unfolding either_way
  record_failure message reason retryable =
      if not retryable || leb message.max_attempts message.attempts
      then either_way (mark_dead db message.id reason) (λ _. pure dead) (λ _. pure dead)
      else either_way
          (mark_for_retry db message.id reason
            (next_attempt_at message.attempts options.backoff draw now))
          (λ _. pure retrying) (λ _. pure retrying)

  unfoldable pub conclude : EmailMessage → SendOutcome → Query DeliveryOutcome
  unfolding either_way record_failure
  conclude message (crashed reason) = record_failure message reason true
  conclude message (refused reason retryable) = record_failure message reason retryable
  conclude message (accepted provider id) =
      either_way (mark_sent db message.id provider id now) (λ _. pure sent) (λ _. pure sent)

  module _ (send : EmailMessage → SendOutcome) where
    unfoldable pub deliver : EmailMessage → Query DeliveryOutcome
    unfolding conclude
    deliver message = conclude message (send message)

    unfoldable pub deliver_all : List EmailMessage → Query (List DeliveryOutcome)
    unfolding deliver ◌>>=◌
    deliver_all [] = pure []
    deliver_all (message ∷ messages) = deliver message >>= λ outcome.
        deliver_all messages >>= λ outcomes. pure (outcome ∷ outcomes)

    unfoldable pub run_once : Query DispatchSummary
    unfolding deliver_all ◌>>=◌
    run_once = do
      claimed ← claim_due db (record {
        limit = options.batch_size;
        worker_id = options.worker_id;
        claim_timeout_ms = options.claim_timeout_ms;
        now = now;
      })
      outcomes ← deliver_all claimed
      pure (record {
        claimed = length claimed;
        sent = count (is_outcome sent) outcomes;
        retrying = count (is_outcome retrying) outcomes;
        dead = count (is_outcome dead) outcomes;
      })

  abbrev pub ms_per_day : ℕ
  ms_per_day = 24 * 60 * 60 * 1000

  unfoldable pub purge_expired : Query ℕ
  purge_expired =
      if leb options.retention_days 0
      then pure 0
      else purge_sent_before db (now - options.retention_days * ms_per_day)
