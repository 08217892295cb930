-- ===== src/Auth/Reaper.antt =====
-- `AuthReaper`: services/auth/src/modules/auth/auth.reaper.ts. A sweep (`runOnce`);
-- the timer that repeats it is left out.
pub mod Rows
pub mod Sweep
use practical_microservice.Common.{
  ℕ, ◌-◌, ◌*◌, Bool, true, false, not, ltb, ◌&&◌, ◌||◌, if◌then◌else◌,
}
use practical_microservice.Common.Calls.{Client, pure, ◌>>=◌}
use practical_microservice.Auth.Errors.{PrismaError}
use practical_microservice.Auth.Tables.{Tables}
use practical_microservice.Auth.Repository.{
  Query, purge_refresh_tokens, purge_verifications, purge_login_history,
}

pub record ReaperOptions : Type 0 where
  pub expired_grace_days : ℕ
  pub revoked_retention_days : ℕ
  pub verification_retention_days : ℕ
  pub login_history_retention_days : ℕ
  pub batch_size : ℕ
  pub interval_ms : ℕ

pub record ReapSummary : Type 0 where
  pub expired_tokens : ℕ
  pub revoked_tokens : ℕ
  pub verifications : ℕ
  pub login_history : ℕ

abbrev pub ms_per_day : ℕ
ms_per_day = 24 * 60 * 60 * 1000

-- A date so many days ago; the clock is past them.
abbrev pub days_before : ℕ → ℕ → ℕ
days_before now days = now - days * ms_per_day

-- A sweep of a table with a retention of 0 days is disabled.
abbrev pub unless_disabled : ℕ → Query ℕ → Query ℕ
unless_disabled days sweep = if ltb 0 days then sweep else pure 0

module _ (db : Client Tables PrismaError) (options : ReaperOptions) (now : ℕ) where
  unfoldable pub run_once : Query ReapSummary
  unfolding ◌>>=◌
  run_once = do
    tokens ← purge_refresh_tokens db (record {
      expired_before = days_before now options.expired_grace_days;
      revoked_before = days_before now options.revoked_retention_days;
      limit = options.batch_size;
    })
    verifications ← unless_disabled options.verification_retention_days (
        purge_verifications db (days_before now options.verification_retention_days)
          options.batch_size)
    login_history ← unless_disabled options.login_history_retention_days (
        purge_login_history db (days_before now options.login_history_retention_days)
          options.batch_size)
    pure (record {
      expired_tokens = tokens.expired;
      revoked_tokens = tokens.revoked;
      verifications = verifications;
      login_history = login_history;
    })
