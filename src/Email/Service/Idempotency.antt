-- ===== src/Email/Service/Idempotency.antt =====
-- `EmailService.enqueue` with an idempotency key.
use practical_microservice.Common.{
  ℕ, ◌≡◌, refl, ◌⊎◌, true, false, ◌∷◌, Option, none, some, ◌==◌, inl, inr, find, any, arith,
  Bool-cases, Option-cases, if◌then◌else◌,
}
use practical_microservice.Common.Calls.{Reply, ok, err, in_memory, ◌>>=◌}
use practical_microservice.Email.Errors.{AppError, conflict}
use practical_microservice.Email.Tables.{EmailMessage, IdempotencyKey, Tables}
use practical_microservice.Email.Repository.{
  key_has, message_has, message_row, joined, find_key, create_message, create_key, insert,
  insert_new, after_conflict, enqueue, attempt,
}
use practical_microservice.Email.Service.{
  SendEmailInput, EnqueueResult, new_record, check_outcome, enqueue_email,
}

module _ (fingerprint : SendEmailInput → ℕ) (max_attempts : ℕ) (key : ℕ) where
  -- The message that a key stands for.
  abbrev kept : Tables → Option (EmailMessage × IdempotencyKey)
  kept t = joined t (find (key_has key) t.keys)

  -- A key with the message and the fingerprint of a request.
  pub record IsKept (t : Tables) (message : EmailMessage) (digest : ℕ) : Type 0 where
    pub row : IdempotencyKey
    pub found : kept t ≡ some (message, row)
    pub digest_is : row.request_fingerprint ≡ digest

  abbrev send : ℕ → ℕ → SendEmailInput → Tables → Reply AppError EnqueueResult × Tables
  send id now input = enqueue_email fingerprint max_attempts in_memory id now input (some key)

  -- A request whose key is known.
  known_key :
      (id now : ℕ) (input : SendEmailInput) (t : Tables) (message : EmailMessage)
      (row : IdempotencyKey)
      → kept t ≡ some (message, row)
      → send id now input t ≡ (
          if row.request_fingerprint == fingerprint input
          then (ok (record { message = message; replayed = true }), t)
          else (err conflict, t))
  unfolding enqueue_email enqueue insert find_key check_outcome attempt ◌>>=◌
  known_key id now input t message row h =
      elim (Bool-cases (row.request_fingerprint == fingerprint input)) [
        | inl e ↦ rw (h, e) refl
        | inr e ↦ rw (h, e) refl
      ]

  abbrev with_new : ℕ → ℕ → SendEmailInput → Tables → Tables
  with_new id now input t = record t {
    messages = message_row id now (new_record input max_attempts) ∷ t.messages;
    keys =
        record { key = key; request_fingerprint = fingerprint input; email_message_id = id }
        ∷ t.keys;
  }

  new_key :
      (id now : ℕ) (input : SendEmailInput) (t : Tables)
      → kept t ≡ none
      → (send id now input t ≡ (
        ok (record {
          message = message_row id now (new_record input max_attempts);
          replayed = false;
        }),
        with_new id now input t,
      ))
        ⊎ (send id now input t ≡ (err conflict, t))
  unfolding enqueue_email enqueue insert insert_new find_key create_message create_key check_outcome
      after_conflict attempt ◌>>=◌
  new_key id now input t h = elim (Bool-cases (any (message_has id) t.messages)) [
    | inl e ↦ inr (rw (h, e, h) refl)
    | inr e ↦ elim (Bool-cases (any (key_has key) t.keys)) [
      | inl k ↦ inr (rw (h, e, k, h) refl)
      | inr k ↦ inl (rw (h, e, k) refl)
    ]
  ]

  same_number : (n : ℕ) → (n == n) ≡ true
  same_number n = ground arith

  with_new-IsKept :
      (id now : ℕ) (input : SendEmailInput) (t : Tables)
      → IsKept
          (with_new id now input t)
          (message_row id now (new_record input max_attempts))
          (fingerprint input)
  with_new-IsKept id now input t = record {
    row = record { key = key; request_fingerprint = fingerprint input; email_message_id = id };
    found = rw (find, same_number key, joined, find, same_number id) refl;
    digest_is = refl;
  }

  sent-IsKept :
      (id now : ℕ) (input : SendEmailInput) (t u : Tables) (first : EnqueueResult)
      → send id now input t ≡ (ok first, u)
      → IsKept u first.message (fingerprint input)
  sent-IsKept id now input t u first h = elim (Option-cases (kept t)) [
    | inr ((message, row), k) ↦ elim (Bool-cases (row.request_fingerprint == fingerprint input)) [
      | inr e ↦ absurd (ground (arith, known_key id now input t message row k))
      | inl e ↦
          let out : Reply AppError EnqueueResult × Tables =
            (ok (record { message = message; replayed = true }), t) in
          let same : out ≡ (ok first, u) = rw (known_key id now input t message row k, e) at h in
          let same_tables : t ≡ u = cc in
          let answer : record { message = message; replayed = true } ≡ first = cc in
          rw (← same_tables, ← answer) (record { row = row; found = k; digest_is = ground arith })
    ]
    | inl k ↦ elim (new_key id now input t k) [
      | inr e ↦ absurd (ground arith)
      | inl e ↦
          let out : Reply AppError EnqueueResult × Tables = (
            ok (record {
              message = message_row id now (new_record input max_attempts);
              replayed = false;
            }),
            with_new id now input t,
          ) in
          let same : out ≡ (ok first, u) = rw e at h in
          let same_tables : with_new id now input t ≡ u = cc in
          let answer : record {
            message = message_row id now (new_record input max_attempts);
            replayed = false;
          }
              ≡ first =
            cc in
          rw (← same_tables, ← answer) (with_new-IsKept id now input t)
    ]
  ]

  -- A request that was accepted with an idempotency key and is sent again, at any time, is answered
  -- with the message of the first, marked as replayed, and nothing is written: one message for
  -- however many retries.
  pub enqueue_email-enqueue_email :
      (id now again later : ℕ) (input : SendEmailInput) (t u : Tables) (first : EnqueueResult)
      → enqueue_email fingerprint max_attempts in_memory id now input (some key) t ≡ (ok first, u)
      → enqueue_email fingerprint max_attempts in_memory again later input (some key) u
        ≡ (ok (record { message = first.message; replayed = true }), u)
  enqueue_email-enqueue_email id now again later input t u first h =
      let k = sent-IsKept id now input t u first h in
      let same : (k.row.request_fingerprint == fingerprint input) ≡ true = ground arith in
      rw (known_key again later input u first.message k.row k.found, same) refl

  -- A key that was accepted with one request is refused, with a conflict and without a write, for a
  -- request of another fingerprint.
  pub enqueue_email-conflict :
      (id now again later : ℕ) (input other : SendEmailInput) (t u : Tables) (first : EnqueueResult)
      → enqueue_email fingerprint max_attempts in_memory id now input (some key) t ≡ (ok first, u)
      → (fingerprint input == fingerprint other) ≡ false
      → enqueue_email fingerprint max_attempts in_memory again later other (some key) u
        ≡ (err conflict, u)
  enqueue_email-conflict id now again later input other t u first h different =
      let k = sent-IsKept id now input t u first h in
      let differs : (k.row.request_fingerprint == fingerprint other) ≡ false =
        rw k.digest_is different in
      rw (known_key again later other u first.message k.row k.found, differs) refl
