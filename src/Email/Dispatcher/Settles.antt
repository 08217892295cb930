-- ===== src/Email/Dispatcher/Settles.antt =====
-- A message alone in its outbox, over the client in memory, through cycles that run to their end.
use practical_microservice.Common.{
  ℕ, ◌+◌, ◌≤◌, ◌<◌, ◌≡◌, refl, ◌⊎◌, Bool, true, false, not, leb, ◌||◌, List, [], ◌∷◌, inl, inr,
  length, arith, Bool-cases,
}
use practical_microservice.Common.Calls.{in_memory}
use practical_microservice.Email.Tables.{
  EmailStatus, pending, sending, failed, EmailMessage, IdempotencyKey, Tables, is_claimable,
  is_sending,
}
use practical_microservice.Email.Backoff.{Draw}
use practical_microservice.Email.Repository.{is_due, claimed}
use practical_microservice.Email.Dispatcher.{
  DispatcherOptions, SendOutcome, accepted, refused, crashed, run_once,
}
use practical_microservice.Email.Dispatcher.Outbox.{
  outbox, concluded, claim_options, run_once-due, run_once-not_due,
}

-- When the next message is due.
abbrev pub next_due : List EmailMessage → ℕ
next_due [] = 0
next_due (m ∷ ms) = m.next_attempt_at

abbrev pub is_settled : EmailStatus → Bool
is_settled EmailStatus.sent = true
is_settled EmailStatus.dead = true
is_settled _ = false

settled_rest :
    (s : EmailStatus) → is_settled s ≡ true → (is_claimable s ≡ false) × (is_sending s ≡ false)
settled_rest EmailStatus.sent h = (refl, refl)
settled_rest EmailStatus.dead h = (refl, refl)
settled_rest pending h = absurd (ground arith)
settled_rest sending h = absurd (ground arith)
settled_rest failed h = absurd (ground arith)

module _ (keys : List IdempotencyKey) (options : DispatcherOptions) (draw : Draw) where
  -- Cycles, each so long after the message was due and with what the provider does then.
  abbrev pub dispatch_all : List (ℕ × SendOutcome) → Tables → Tables
  dispatch_all [] t = t
  dispatch_all ((wait, answer) ∷ rest) t =
      dispatch_all rest
        (run_once in_memory options (next_due t.messages + wait) draw (λ x. answer) t).1

  due_after :
      (now : ℕ) (m : EmailMessage)
      → is_claimable m.status ≡ true
      → m.next_attempt_at ≤ now
      → is_due (claim_options keys options now draw) m ≡ true
  unfolding is_due
  due_after now m h early = rw h (ground arith)

  never_due :
      (now : ℕ) (m : EmailMessage)
      → is_settled m.status ≡ true
      → is_due (claim_options keys options now draw) m ≡ false
  unfolding is_due
  never_due now m h = let (a, b) = settled_rest m.status h in rw (a, b) refl

  pub record IsDone (m : EmailMessage) (t : Tables) : Type 0 where
    pub row : EmailMessage
    pub alone : t ≡ outbox keys row
    pub settled : is_settled row.status ≡ true
    pub bounded : row.attempts ≤ m.max_attempts

  stays_settled :
      (answers : List (ℕ × SendOutcome)) (m : EmailMessage)
      → is_settled m.status ≡ true
      → dispatch_all answers (outbox keys m) ≡ outbox keys m
  stays_settled [] m h = refl
  stays_settled ((wait, answer) ∷ rest) m h =
      let now = m.next_attempt_at + wait in
      rw (dispatch_all, run_once-not_due keys options now draw answer m (never_due now m h))
        (stays_settled rest m h)

  -- A delivery settles the message, or leaves it to be claimed again with an attempt less.
  record IsRetried (m c : EmailMessage) : Type 0 where
    pub again : is_claimable c.status ≡ true
    pub once : c.attempts ≡ m.attempts + 1
    pub left : c.attempts < c.max_attempts
    pub same : c.max_attempts ≡ m.max_attempts

  record IsOver (m c : EmailMessage) : Type 0 where
    pub settled : is_settled c.status ≡ true
    pub once : c.attempts ≡ m.attempts + 1

  refused-cases :
      (now : ℕ) (m : EmailMessage) (reason : ℕ) (retryable : Bool)
      → IsOver m (
          concluded keys options now draw
            (claimed (claim_options keys options now draw) m)
            (refused reason retryable))
        ⊎ IsRetried m (
            concluded keys options now draw
              (claimed (claim_options keys options now draw) m)
              (refused reason retryable))
  refused-cases now m reason retryable =
      elim (Bool-cases (not retryable || leb m.max_attempts (m.attempts + 1))) [
        | inl e ↦ inl (rw e (record { settled = refl; once = refl }))
        | inr e ↦
            inr (rw e (record { again = refl; once = refl; left = ground arith; same = refl }))
      ]

  concluded-cases :
      (now : ℕ) (m : EmailMessage) (answer : SendOutcome)
      → IsOver m
          (concluded keys options now draw (claimed (claim_options keys options now draw) m) answer)
        ⊎ IsRetried m (
            concluded keys options now draw
              (claimed (claim_options keys options now draw) m)
              answer)
  concluded-cases now m (accepted provider id) = inl (record { settled = refl; once = refl })
  concluded-cases now m (refused reason retryable) = refused-cases now m reason retryable
  concluded-cases now m (crashed reason) = refused-cases now m reason true

  -- In an outbox of this message alone, over the client in memory, with a batch of at least one: a
  -- message that can be claimed and has attempts left is settled, sent or dead, after at most as
  -- many cycles as it had attempts left, each begun when it is due and run to its end, whatever the
  -- provider does and however late the cycles are; it has had at most its maximum of attempts, and
  -- stays settled.
  pub run_once-Settles :
      (answers : List (ℕ × SendOutcome)) (m : EmailMessage)
      → 0 < options.batch_size
      → is_claimable m.status ≡ true
      → m.attempts < m.max_attempts
      → m.max_attempts ≤ m.attempts + length answers
      → IsDone m (dispatch_all answers (outbox keys m))
  run_once-Settles [] m some_batch ready left enough = absurd (omega arith)
  run_once-Settles ((wait, answer) ∷ rest) m some_batch ready left enough =
      let now = m.next_attempt_at + wait in
      let step =
        run_once-due keys options now draw answer m some_batch
          (due_after now m ready (omega arith)) in
      let c =
        concluded keys options now draw (claimed (claim_options keys options now draw) m) answer in
      elim (concluded-cases now m answer) [
        | inl over ↦
            rw (dispatch_all, step, stays_settled rest c over.settled)
              (record {
                row = c;
                alone = refl;
                settled = over.settled;
                bounded = omega (arith, over.once);
              })
        | inr retried ↦
            let done =
              run_once-Settles rest c some_batch retried.again retried.left
                (omega (arith, retried.once, retried.same)) in
            rw (dispatch_all, step)
              (record {
                row = done.row;
                alone = done.alone;
                settled = done.settled;
                bounded = omega (arith, done.bounded, retried.same);
              })
      ]
