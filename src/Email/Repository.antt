-- ===== src/Email/Repository.antt =====
-- `PrismaEmailRepository`: services/email/src/modules/email/email.repository.ts. The client runs a
-- transaction or a statement as documented, or refuses it (Common/Calls).
pub mod Claims
use practical_microservice.Common.{
  ℕ, suc, ◌+◌, ◌-◌, Bool, true, false, not, ltb, leb, ◌&&◌, ◌||◌, List, [], ◌∷◌, Option, none, some,
  ◌==◌, if◌then◌else◌, find, filter, any,
}
use practical_microservice.Common.Calls.{
  Reply, ok, err, Call, pure, throw, ◌>>=◌, ◌>>◌, map_error, Client, branch,
}
use practical_microservice.Common.Rows.{count, update_where, update_first, take}
use practical_microservice.Email.Errors.{
  AppError, conflict, PrismaError, unique_violation, record_not_found, to_app_error,
}
use practical_microservice.Email.Tables.{
  EmailStatus, pending, sending, sent, failed, dead, EmailBodyType, EmailMessage, IdempotencyKey,
  Tables, is_claimable, is_sending, is_sent,
}

abbrev pub Tx : Type 0 → Type 0
Tx = Call Tables PrismaError

abbrev pub Query : Type 0 → Type 0
Query = Call Tables AppError

-- `attempt`
unfoldable pub attempt : {A : Type 0} → Tx A → Query A
unfolding to_app_error
attempt m t = let (r, u) = m t in (map_error to_app_error r, u)

pub record NewEmailRecord : Type 0 where
  pub recipient : ℕ
  pub subject : ℕ
  pub body : ℕ
  pub body_type : EmailBodyType
  pub source : ℕ
  pub max_attempts : ℕ

pub record IdempotencyRecord : Type 0 where
  pub key : ℕ
  pub fingerprint : ℕ

pub record EnqueueOutcome : Type 0 where
  pub message : EmailMessage
  pub replayed : Bool
  pub stored_fingerprint : Option ℕ

pub record ClaimOptions : Type 0 where
  pub limit : ℕ
  pub worker_id : ℕ
  pub claim_timeout_ms : ℕ
  pub now : ℕ

abbrev pub message_has : ℕ → EmailMessage → Bool
message_has id m = m.id == id

abbrev pub key_has : ℕ → IdempotencyKey → Bool
key_has key k = k.key == key

-- The row of a new message, with the defaults of its columns.
abbrev pub message_row : ℕ → ℕ → NewEmailRecord → EmailMessage
message_row id now new = record {
  id = id;
  recipient = new.recipient;
  subject = new.subject;
  body = new.body;
  body_type = new.body_type;
  source = new.source;
  status = pending;
  attempts = 0;
  max_attempts = new.max_attempts;
  next_attempt_at = now;
  locked_at = none;
  locked_by = none;
  last_error = none;
  provider = none;
  provider_message_id = none;
  sent_at = none;
  created_at = now;
}

unfoldable pub create_message : EmailMessage → Tx EmailMessage
create_message new t =
    if any (message_has new.id) t.messages
    then (err unique_violation, t)
    else (ok new, record t { messages = new ∷ t.messages })

unfoldable pub create_key : IdempotencyKey → Tx IdempotencyKey
create_key new t =
    if any (key_has new.key) t.keys
    then (err unique_violation, t)
    else (ok new, record t { keys = new ∷ t.keys })

unfoldable pub update_message : ℕ → (EmailMessage → EmailMessage) → Tx EmailMessage
update_message id f t = elim (find (message_has id) t.messages) [
  | none ↦ (err record_not_found, t)
  | some m ↦ (ok (f m), record t { messages = update_first (message_has id) f t.messages })
]

-- A key with the message that it belongs to; rows of messages go with their keys.
abbrev pub joined : Tables → Option IdempotencyKey → Option (EmailMessage × IdempotencyKey)
joined t none = none
joined t (some k) = elim (find (message_has k.email_message_id) t.messages) [
  | none ↦ none
  | some m ↦ some (m, k)
]

unfoldable pub find_key : ℕ → Tx (Option (EmailMessage × IdempotencyKey))
find_key key t = (ok (joined t (find (key_has key) t.keys)), t)

-- A row that a dispatcher may claim: claimable and due, or in delivery for too long.
abbrev pub is_stale : ClaimOptions → Option ℕ → Bool
is_stale options none = false
is_stale options (some at) = ltb (at + options.claim_timeout_ms) options.now

unfoldable pub is_due : ClaimOptions → EmailMessage → Bool
is_due options m =
    (is_claimable m.status && leb m.next_attempt_at options.now)
    || (is_sending m.status && is_stale options m.locked_at)

abbrev pub insert_by_next_attempt : EmailMessage → List EmailMessage → List EmailMessage
insert_by_next_attempt m [] = m ∷ []
insert_by_next_attempt m (n ∷ ms) =
    let rest = insert_by_next_attempt m ms in
    if leb m.next_attempt_at n.next_attempt_at then m ∷ n ∷ ms else n ∷ rest

-- `orderBy: { nextAttemptAt: "asc" }`
abbrev pub by_next_attempt : List EmailMessage → List EmailMessage
by_next_attempt [] = []
by_next_attempt (m ∷ ms) = insert_by_next_attempt m (by_next_attempt ms)

abbrev pub is_candidate : List EmailMessage → ℕ → Bool
is_candidate candidates id = any (message_has id) candidates

abbrev pub claimed : ClaimOptions → EmailMessage → EmailMessage
claimed options m = record m {
  status = sending;
  locked_at = some options.now;
  locked_by = some options.worker_id;
  attempts = m.attempts + 1;
}

abbrev pub is_at : ℕ → Option ℕ → Bool
is_at n none = false
is_at n (some m) = m == n

-- A row that this worker claimed now.
unfoldable pub is_claimed : ClaimOptions → EmailMessage → Bool
is_claimed options m =
    is_sending m.status && (is_at options.worker_id m.locked_by && is_at options.now m.locked_at)

unfoldable pub stamp : ClaimOptions → List EmailMessage → Tx (Unit {0})
stamp options candidates t = (
  ok tt,
  record t {
    messages =
        update_where (λ m. is_candidate candidates m.id && is_due options m) (claimed options)
          t.messages;
  },
)

abbrev pub is_empty : {A : Type 0} → List A → Bool
is_empty [] = true
is_empty (a ∷ rest) = false

abbrev pub sent_row : ℕ → ℕ → ℕ → EmailMessage → EmailMessage
sent_row provider provider_message_id now m = record m {
  status = sent;
  provider = some provider;
  provider_message_id = some provider_message_id;
  sent_at = some now;
  last_error = none;
  locked_at = none;
  locked_by = none;
}

abbrev pub retry_row : ℕ → ℕ → EmailMessage → EmailMessage
retry_row error at m = record m {
  status = failed;
  last_error = some error;
  next_attempt_at = at;
  locked_at = none;
  locked_by = none;
}

abbrev pub dead_row : ℕ → EmailMessage → EmailMessage
dead_row error m = record m {
  status = dead;
  last_error = some error;
  locked_at = none;
  locked_by = none;
}

abbrev pub requeued_row : ℕ → EmailMessage → EmailMessage
requeued_row now m = record m {
  status = pending;
  next_attempt_at = now;
  locked_at = none;
  locked_by = none;
  attempts = 0;
}

abbrev pub is_purged : ℕ → EmailMessage → Bool
is_purged cutoff m = is_sent m.status && ltb m.created_at cutoff

-- Whether a request has a key.
abbrev pub stored_of : Option IdempotencyRecord → Option ℕ
stored_of none = none
stored_of (some i) = some i.fingerprint

unfoldable pub insert_new : ℕ → ℕ → NewEmailRecord → Option IdempotencyRecord → Tx EnqueueOutcome
unfolding ◌>>=◌
insert_new id now input none = do
  message ← create_message (message_row id now input)
  pure (record { message = message; replayed = false; stored_fingerprint = none })
insert_new id now input (some i) = do
  message ← create_message (message_row id now input)
  _ ←
      create_key
        (record { key = i.key; request_fingerprint = i.fingerprint; email_message_id = message.id })
  pure (record { message = message; replayed = false; stored_fingerprint = some i.fingerprint })

abbrev pub replay : EmailMessage × IdempotencyKey → EnqueueOutcome
replay (m, k) = record {
  message = m;
  replayed = true;
  stored_fingerprint = some k.request_fingerprint;
}

-- `insert`: the body of the transaction.
unfoldable pub insert : ℕ → ℕ → NewEmailRecord → Option IdempotencyRecord → Tx EnqueueOutcome
unfolding insert_new ◌>>=◌
insert id now input none = insert_new id now input none
insert id now input (some i) = find_key i.key >>= λ existing. elim existing [
  | some found ↦ pure (replay found)
  | none ↦ insert_new id now input (some i)
]

module _ (db : Client Tables PrismaError) where
  abbrev pub statement : {A : Type 0} → Tx A → Query A
  statement {A} m = attempt (db.run A m)

  -- A race for a key that was lost: the winner's row.
  unfoldable pub after_conflict : Option IdempotencyRecord → AppError → Query EnqueueOutcome
  unfolding ◌>>=◌
  after_conflict (some i) conflict = statement (find_key i.key) >>= λ found. elim found [
    | some winner ↦ pure (replay winner)
    | none ↦ throw conflict
  ]
  after_conflict i e = throw e

  unfoldable pub enqueue : ℕ → ℕ → NewEmailRecord → Option IdempotencyRecord → Query EnqueueOutcome
  unfolding insert after_conflict
  enqueue id now input i t =
      branch (λ outcome. pure outcome) (after_conflict i) (statement (insert id now input i) t)

  unfoldable pub find_by_id : ℕ → Query (Option EmailMessage)
  find_by_id id = statement (λ t. (ok (find (message_has id) t.messages), t))

  -- Three statements: the candidates, the guarded update of those, and the rows it has stamped.
  unfoldable pub claim_due : ClaimOptions → Query (List EmailMessage)
  unfolding ◌>>=◌
  claim_due options = do
    candidates ←
        statement
          (λ t. (ok (take options.limit (by_next_attempt (filter (is_due options) t.messages))), t))
    if is_empty candidates
        then pure []
        else (statement (stamp options candidates) >>= λ _.
            statement (λ t. (ok (by_next_attempt (filter (is_claimed options) t.messages)), t)))

  unfoldable pub mark_sent : ℕ → ℕ → ℕ → ℕ → Query EmailMessage
  mark_sent id provider provider_message_id now =
      statement (update_message id (sent_row provider provider_message_id now))

  unfoldable pub mark_for_retry : ℕ → ℕ → ℕ → Query EmailMessage
  mark_for_retry id error at = statement (update_message id (retry_row error at))

  unfoldable pub mark_dead : ℕ → ℕ → Query EmailMessage
  mark_dead id error = statement (update_message id (dead_row error))

  -- With `resetAttempts`, as the service calls it.
  unfoldable pub requeue : ℕ → ℕ → Query EmailMessage
  requeue id now = statement (update_message id (requeued_row now))

  -- The keys of a message go with it.
  unfoldable pub purge_sent_before : ℕ → Query ℕ
  purge_sent_before cutoff = statement (λ t. (
    ok (count (is_purged cutoff) t.messages),
    record t {
      messages = filter (λ m. not (is_purged cutoff m)) t.messages;
      keys =
          filter
            (λ k.
              not (any (λ m. is_purged cutoff m && message_has k.email_message_id m) t.messages))
            t.keys;
    },
  ))
