-- ===== src/Email/Dispatcher/Orphans.antt =====
-- Messages whose worker dies in the middle of a delivery.
use practical_microservice.Common.{
  ℕ, zero, suc, ◌+◌, ◌<◌, ◌≡◌, refl, true, List, [], ◌∷◌, Option, none, some, arith,
}
use practical_microservice.Common.Calls.{in_memory}
use practical_microservice.Email.Tables.{sending, EmailMessage, IdempotencyKey, Tables}
use practical_microservice.Email.Repository.{ClaimOptions, is_due, claimed, claim_due}
use practical_microservice.Email.Dispatcher.Outbox.{outbox, claim_due-due}

-- When the claim of the next message has lapsed.
abbrev pub lapse_of : Option ℕ → ℕ → ℕ
lapse_of none timeout = 0
lapse_of (some at) timeout = suc (at + timeout)

abbrev pub next_lapse : List EmailMessage → ℕ → ℕ
next_lapse [] timeout = 0
next_lapse (m ∷ ms) timeout = lapse_of m.locked_at timeout

module _ (keys : List IdempotencyKey) (limit worker timeout : ℕ) where
  abbrev claim_at : ℕ → ClaimOptions
  claim_at now = record { limit = limit; worker_id = worker; claim_timeout_ms = timeout; now = now }

  -- A number of workers that each claim what has lapsed, and die.
  abbrev pub crash_all : ℕ → Tables → Tables
  crash_all zero t = t
  crash_all (suc n) t =
      crash_all n (claim_due in_memory (claim_at (next_lapse t.messages timeout)) t).1

  pub record IsOrphan (m : EmailMessage) (n : ℕ) (t : Tables) : Type 0 where
    pub row : EmailMessage
    pub alone : t ≡ outbox keys row
    pub in_delivery : row.status ≡ sending
    pub counted : row.attempts ≡ m.attempts + n
    pub maximum : row.max_attempts ≡ m.max_attempts

  lapsed-due :
      (m : EmailMessage) (at : ℕ)
      → m.status ≡ sending
      → m.locked_at ≡ some at
      → is_due (claim_at (lapse_of m.locked_at timeout)) m ≡ true
  unfolding is_due
  lapsed-due m at h k = rw (h, k) (ground arith)

  -- A message in delivery is claimed again whenever its claim has lapsed, whatever its attempts: in
  -- an outbox of one message, after any number of workers that died with it, it is still in
  -- delivery, and has been attempted as often, its maximum notwithstanding.
  pub claim_due-never_gives_up :
      (n : ℕ) (m : EmailMessage) (at : ℕ)
      → 0 < limit
      → m.status ≡ sending
      → m.locked_at ≡ some at
      → IsOrphan m n (crash_all n (outbox keys m))
  claim_due-never_gives_up zero m at some_limit h k = record {
    row = m;
    alone = refl;
    in_delivery = h;
    counted = omega arith;
    maximum = refl;
  }
  claim_due-never_gives_up (suc n) m at some_limit h k =
      let now = lapse_of m.locked_at timeout in
      let step = claim_due-due keys (claim_at now) m some_limit (lapsed-due m at h k) in
      let rest = claim_due-never_gives_up n (claimed (claim_at now) m) now some_limit refl refl in
      rw (crash_all, step)
        (record {
          row = rest.row;
          alone = rest.alone;
          in_delivery = rest.in_delivery;
          counted = omega (arith, rest.counted);
          maximum = rest.maximum;
        })
