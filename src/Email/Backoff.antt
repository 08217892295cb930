-- ===== src/Email/Backoff.antt =====
-- The retry schedule: services/email/src/utils/backoff.ts. `random()` is the fraction `drawn / d`,
-- and `Math.round` of a fraction is the whole part of it and a half.
pub mod Bounds
use practical_microservice.Common.{ℕ, suc, ◌+◌, ◌-◌, ◌*◌, ◌/◌, ◌^◌, ltb, leb, if◌then◌else◌}

pub record BackoffOptions : Type 0 where
  pub base_ms : ℕ
  pub max_ms : ℕ

-- A draw of the random source: less than 1.
pub record Draw : Type 0 where
  pub drawn : ℕ
  pub out_of : ℕ

abbrev pub min : ℕ → ℕ → ℕ
min a b = if leb a b then a else b

unfoldable pub capped_delay : ℕ → BackoffOptions → ℕ
capped_delay attempts options = min options.max_ms (options.base_ms * 2 ^ min (attempts - 1) 30)

-- capped / 2 + random * capped / 2, rounded.
unfoldable pub backoff_delay_ms : ℕ → BackoffOptions → Draw → ℕ
backoff_delay_ms attempts options draw =
    (capped_delay attempts options * (draw.out_of + draw.drawn) + draw.out_of) / (2 * draw.out_of)

unfoldable pub next_attempt_at : ℕ → BackoffOptions → Draw → ℕ → ℕ
next_attempt_at attempts options draw now = now + backoff_delay_ms attempts options draw
