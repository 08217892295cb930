-- ===== src/Email/Tables.antt =====
-- The rows of the email database (services/email/prisma/schema.prisma). Ids, addresses, texts and
-- fingerprints are only compared, so they are numbers; a date is its milliseconds. A table has its
-- newest rows first.
use practical_microservice.Common.{ℕ, Bool, true, false, List, Option}

pub data EmailStatus : Type 0 where
  pending sending sent failed dead : EmailStatus

pub data EmailBodyType : Type 0 where
  text html : EmailBodyType

pub record EmailMessage : Type 0 where
  pub id : ℕ
  pub recipient : ℕ
  pub subject : ℕ
  pub body : ℕ
  pub body_type : EmailBodyType
  pub source : ℕ
  pub status : EmailStatus
  pub attempts : ℕ
  pub max_attempts : ℕ
  pub next_attempt_at : ℕ
  pub locked_at : Option ℕ
  pub locked_by : Option ℕ
  pub last_error : Option ℕ
  pub provider : Option ℕ
  pub provider_message_id : Option ℕ
  pub sent_at : Option ℕ
  pub created_at : ℕ

pub record IdempotencyKey : Type 0 where
  pub key : ℕ
  pub request_fingerprint : ℕ
  pub email_message_id : ℕ

pub record Tables : Type 0 where
  pub messages : List EmailMessage
  pub keys : List IdempotencyKey

-- `CLAIMABLE_STATUSES`
abbrev pub is_claimable : EmailStatus → Bool
is_claimable pending = true
is_claimable failed = true
is_claimable _ = false

abbrev pub is_sending : EmailStatus → Bool
is_sending sending = true
is_sending _ = false

abbrev pub is_sent : EmailStatus → Bool
is_sent sent = true
is_sent _ = false

-- `RETRYABLE_STATUSES`
abbrev pub is_retryable : EmailStatus → Bool
is_retryable failed = true
is_retryable dead = true
is_retryable _ = false
