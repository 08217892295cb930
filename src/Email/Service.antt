-- ===== src/Email/Service.antt =====
-- `EmailService`: services/email/src/modules/email/email.service.ts.
pub mod Idempotency
use practical_microservice.Common.{
  ℕ, Bool, true, false, not, ◌&&◌, Option, none, some, ◌==◌, if◌then◌else◌,
}
use practical_microservice.Common.Calls.{Client, pure, throw, ◌>>=◌}
use practical_microservice.Email.Errors.{AppError, conflict, not_found, PrismaError}
use practical_microservice.Email.Tables.{EmailBodyType, EmailMessage, Tables, is_retryable}
use practical_microservice.Email.Repository.{
  Query, NewEmailRecord, IdempotencyRecord, EnqueueOutcome, enqueue, find_by_id, requeue, is_at,
}

pub record SendEmailInput : Type 0 where
  pub recipient : ℕ
  pub subject : ℕ
  pub body : ℕ
  pub body_type : EmailBodyType
  pub source : ℕ

pub record EnqueueResult : Type 0 where
  pub message : EmailMessage
  pub replayed : Bool

abbrev pub new_record : SendEmailInput → ℕ → NewEmailRecord
new_record input max_attempts = record {
  recipient = input.recipient;
  subject = input.subject;
  body = input.body;
  body_type = input.body_type;
  source = input.source;
  max_attempts = max_attempts;
}

abbrev pub idempotency_of : Option ℕ → ℕ → Option IdempotencyRecord
idempotency_of none digest = none
idempotency_of (some key) digest = some (record { key = key; fingerprint = digest })

-- `fingerprint` of services/email/src/utils/fingerprint.ts is a hash: a parameter.
module _ (fingerprint : SendEmailInput → ℕ) (max_attempts : ℕ)
    (db : Client Tables PrismaError) where
  unfoldable pub check_outcome : SendEmailInput → EnqueueOutcome → Query EnqueueResult
  check_outcome input outcome =
      if outcome.replayed && not (is_at (fingerprint input) outcome.stored_fingerprint)
      then throw conflict
      else pure (record { message = outcome.message; replayed = outcome.replayed })

  unfoldable pub enqueue_email : ℕ → ℕ → SendEmailInput → Option ℕ → Query EnqueueResult
  unfolding ◌>>=◌ check_outcome
  enqueue_email id now input key =
      enqueue db id now (new_record input max_attempts) (idempotency_of key (fingerprint input))
      >>= check_outcome input

abbrev pub or_not_found : Option EmailMessage → Query EmailMessage
or_not_found none = throw not_found
or_not_found (some m) = pure m

module _ (db : Client Tables PrismaError) where
  unfoldable pub get_by_id : ℕ → Query EmailMessage
  unfolding ◌>>=◌
  get_by_id id = find_by_id db id >>= or_not_found

  unfoldable pub retry : ℕ → ℕ → Query EmailMessage
  unfolding get_by_id ◌>>=◌
  retry id now = do
    message ← get_by_id id
    if is_retryable message.status then requeue db id now else throw conflict
