-- ===== src/Email/Tests.antt =====
-- The email theorems at a concrete outbox.
use practical_microservice.Common.{
  ℕ, ◌+◌, ◌*◌, ◌≤◌, ◌≡◌, refl, true, false, [], ◌∷◌, none, some, find, arith,
}
use practical_microservice.Common.Calls.{ok, err, in_memory, ◌>>=◌}
use practical_microservice.Email.Errors.{conflict}
use practical_microservice.Email.Tables.{pending, sending, text, EmailMessage, Tables}
use practical_microservice.Email.Backoff.{BackoffOptions, Draw, capped_delay, backoff_delay_ms}
use practical_microservice.Email.Backoff.Bounds.{backoff_delay_ms-bounds}
use practical_microservice.Email.Repository.{
  ClaimOptions, message_has, claim_due, attempt, insert, insert_new, find_key, create_message,
  create_key, enqueue,
}
use practical_microservice.Email.Repository.Claims.{claim_due-leaves_held}
use practical_microservice.Email.Service.{
  SendEmailInput, EnqueueResult, check_outcome, enqueue_email,
}
use practical_microservice.Email.Service.Idempotency.{
  enqueue_email-enqueue_email, enqueue_email-conflict,
}
use practical_microservice.Email.Dispatcher.{DispatcherOptions, refused, crashed, accepted}
use practical_microservice.Email.Dispatcher.Outbox.{outbox}
use practical_microservice.Email.Dispatcher.Settles.{dispatch_all, IsDone, run_once-Settles}
use practical_microservice.Email.Dispatcher.Orphans.{crash_all, IsOrphan, claim_due-never_gives_up}

abbrev message : EmailMessage
message = record {
  id = 1;
  recipient = 10;
  subject = 11;
  body = 12;
  body_type = text;
  source = 13;
  status = pending;
  attempts = 0;
  max_attempts = 3;
  next_attempt_at = 100;
  locked_at = none;
  locked_by = none;
  last_error = none;
  provider = none;
  provider_message_id = none;
  sent_at = none;
  created_at = 100;
}

abbrev backoff : BackoffOptions
backoff = record { base_ms = 2000; max_ms = 60000 }

abbrev options : DispatcherOptions
options = record {
  batch_size = 20;
  poll_interval_ms = 1000;
  claim_timeout_ms = 5000;
  backoff = backoff;
  retention_days = 30;
  worker_id = 7;
}

abbrev draw : Draw
draw = record { drawn = 1; out_of = 4 }

run_once-Settles_example : IsDone [] options draw message (
    dispatch_all [] options draw
      ((0, refused 5 true) ∷ (50, crashed 6) ∷ (3, accepted 8 9) ∷ [])
      (outbox [] message))
run_once-Settles_example =
    run_once-Settles [] options draw
      ((0, refused 5 true) ∷ (50, crashed 6) ∷ (3, accepted 8 9) ∷ []) message (omega arith) refl
      (omega arith) (omega arith)

abbrev held : EmailMessage
held = record message { status = sending; locked_at = some 200; locked_by = some 7; attempts = 1 }

claim_due-never_gives_up_example :
    IsOrphan [] 20 7 5000 held 6 (crash_all [] 20 7 5000 6 (outbox [] held))
claim_due-never_gives_up_example =
    claim_due-never_gives_up [] 20 7 5000 6 held 200 (omega arith) refl refl

abbrev other_worker : ClaimOptions
other_worker = record { limit = 20; worker_id = 8; claim_timeout_ms = 5000; now = 4000 }

claim_due-leaves_held_example :
    find (message_has 1) (claim_due in_memory other_worker (outbox [] held)).1.messages ≡ some held
claim_due-leaves_held_example =
    claim_due-leaves_held in_memory other_worker (outbox [] held) held 200 refl refl refl
      (omega arith)

abbrev fingerprint : SendEmailInput → ℕ
fingerprint input = input.recipient + input.body

abbrev input : SendEmailInput
input = record { recipient = 10; subject = 11; body = 12; body_type = text; source = 13 }

abbrev other_input : SendEmailInput
other_input = record input { body = 99 }

abbrev no_mail : Tables
no_mail = record { messages = []; keys = [] }

abbrev first : EnqueueResult
first = record { message = message; replayed = false }

abbrev accepted_once : Tables
accepted_once = (enqueue_email fingerprint 3 in_memory 1 100 input (some 77) no_mail).1

accepted_once_lem :
    enqueue_email fingerprint 3 in_memory 1 100 input (some 77) no_mail ≡ (ok first, accepted_once)
unfolding enqueue_email enqueue insert insert_new find_key create_message create_key check_outcome
    attempt ◌>>=◌
accepted_once_lem = refl

enqueue_email-enqueue_email_example :
    enqueue_email fingerprint 3 in_memory 2 150 input (some 77) accepted_once
    ≡ (ok (record { message = message; replayed = true }), accepted_once)
enqueue_email-enqueue_email_example =
    enqueue_email-enqueue_email fingerprint 3 77 1 100 2 150 input no_mail accepted_once first
      accepted_once_lem

enqueue_email-conflict_example :
    enqueue_email fingerprint 3 in_memory 2 150 other_input (some 77) accepted_once
    ≡ (err conflict, accepted_once)
enqueue_email-conflict_example =
    enqueue_email-conflict fingerprint 3 77 1 100 2 150 input other_input no_mail accepted_once
      first accepted_once_lem refl

backoff_delay_ms-bounds_example :
    (capped_delay 3 backoff ≤ 2 * backoff_delay_ms 3 backoff draw)
    × (backoff_delay_ms 3 backoff draw ≤ capped_delay 3 backoff)
    × (backoff_delay_ms 3 backoff draw ≤ 60000)
backoff_delay_ms-bounds_example = backoff_delay_ms-bounds 3 backoff draw (omega arith)
