-- ===== src/Auth/Agreement/Requests.antt =====
-- The requests that report every failure agree with their runs in memory.
use practical_microservice.Common.{ℕ}
use practical_microservice.Common.Calls.{Client, in_memory}
use practical_microservice.Auth.Errors.{PrismaError}
use practical_microservice.Auth.Tables.{
  VerificationType, Verification, RefreshToken, AuthUser, Tables,
}
use practical_microservice.Auth.Environment.{Outside, Request}
use practical_microservice.Auth.Repository
use practical_microservice.Auth.Service.{check_code, consume_code, start_session}
use practical_microservice.Auth.Service.Requests.{
  refuse_reuse, refuse_account, rotate, refresh_stored, refresh, reset_password, change_password,
}
use practical_microservice.Auth.Agreement.{Agrees, agree_rules}

module _ (o : Outside) (db : Client Tables PrismaError) (q : Request) where
  pub refresh_stored-Agrees :
      (stored : RefreshToken)
      → Agrees (refresh_stored o db q stored) (refresh_stored o in_memory q stored)
  unfolding refresh_stored Repository.revoke_family refuse_reuse Repository.revoke_all_for_user
      refuse_account Repository.find_user rotate Repository.rotate_refresh_token
  refresh_stored-Agrees stored = search agree_rules depth 14

  pub refresh-Agrees : (token : ℕ) → Agrees (refresh o db q token) (refresh o in_memory q token)
  unfolding refresh Repository.find_refresh_token_by_hash
  refresh-Agrees token = search (agree_rules, refresh_stored-Agrees) depth 14

  pub check_code-Agrees :
      (code : ℕ) (v : Verification)
      → Agrees (check_code o db q code v) (check_code o in_memory q code v)
  unfolding check_code Repository.register_verification_attempt
  check_code-Agrees code v = search agree_rules depth 14

  pub consume_code-Agrees :
      (id : ℕ) (type : VerificationType) (code : ℕ)
      → Agrees (consume_code o db q id type code) (consume_code o in_memory q id type code)
  unfolding consume_code Repository.find_active_verification
  consume_code-Agrees id type code = search (agree_rules, check_code-Agrees) depth 14

  pub reset_password-Agrees :
      (email code password : ℕ)
      → Agrees
          (reset_password o db q email code password)
          (reset_password o in_memory q email code password)
  unfolding reset_password Repository.find_user Repository.consume_password_reset
  reset_password-Agrees email code password = search (agree_rules, consume_code-Agrees) depth 14

  start_session-Agrees :
      (u : AuthUser) → Agrees (start_session o db q u) (start_session o in_memory q u)
  unfolding start_session Repository.create_refresh_token
  start_session-Agrees u = search agree_rules depth 14

  pub change_password-Agrees :
      (id current password : ℕ)
      → Agrees
          (change_password o db q id current password)
          (change_password o in_memory q id current password)
  unfolding change_password Repository.find_user Repository.update_password
  change_password-Agrees id current password = search (agree_rules, start_session-Agrees) depth 14
