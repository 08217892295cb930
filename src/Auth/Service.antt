-- ===== src/Auth/Service.antt =====
-- `AuthService`: services/auth/src/modules/auth/auth.service.ts. Nothing throws: each step answers
-- with an error or a value.
pub mod Views
pub mod Requests
use practical_microservice.Common.{
  ℕ, suc, ◌+◌, ◌-◌, Bool, true, false, not, ltb, leb, ◌&&◌, ◌||◌, List, [], ◌∷◌, Option, none, some,
  ◌==◌, if◌then◌else◌, is_some,
}
use practical_microservice.Common.Calls.{
  Reply, ok, err, Call, pure, throw, ◌>>=◌, ◌>>◌, Client, either_way,
}
use practical_microservice.Auth.Errors.{
  AppError, PrismaError, conflict, forbidden, too_many_requests, unauthorized, invalid_code,
  invalid_session, session_ended, authentication_required, wrong_current_password,
}
use practical_microservice.Auth.Errors
use practical_microservice.Auth.Tables.{
  VerificationType, email_verification, password_reset, email_change, LoginOutcome, success,
  invalid_credentials, unknown_email, not_verified, account_locked, account_inactive, RevokeReason,
  logged_out, logged_out_all, reuse_detected, Json, profile, other_json, PendingProfile, AuthUser,
  Verification, RefreshToken, Tables, is_active,
}
use practical_microservice.Auth.Statement.{user_has}
use practical_microservice.Auth.Environment.{
  AuthServiceOptions, Request, Mail, verification_email, password_reset_email,
  password_changed_email, Outside,
}
use practical_microservice.Auth.Repository.{
  Query, create_auth_user_with_verification, find_user, attach_profile, record_login_attempt,
  register_failed_login, register_successful_login, find_active_verification, replace_verification,
  register_verification_attempt, attach_verification_email, consume_email_verification,
  consume_password_reset, create_refresh_token, find_refresh_token_by_hash, rotate_refresh_token,
  revoke_refresh_token, revoke_family, revoke_all_for_user, list_active_sessions, update_password,
}
use Views.{
  AuthTokens, AuthenticatedResult, RegistrationResult, VerificationResult, PublicAuthUser,
  to_public_auth_user, claims_of, SessionView, to_session_view, views_of,
}

-- What a call that names no result of its own forwards.
abbrev pub lifted : {A : Type 0} → Reply AppError A → Query A
lifted r t = (r, t)

-- `readPendingProfile`
abbrev pub read_pending_profile : Option Json → Option PendingProfile
read_pending_profile (some (profile p)) = some p
read_pending_profile _ = none

abbrev pub is_success : LoginOutcome → Bool
is_success success = true
is_success _ = false

-- `authUser.lockedUntil && authUser.lockedUntil > new Date()`
abbrev pub is_locked : ℕ → AuthUser → Bool
is_locked now u = elim u.locked_until [ none ↦ false | some until ↦ ltb now until ]

abbrev pub email_is : ℕ → AuthUser → Bool
email_is email u = u.email == email

abbrev pub username_is : ℕ → AuthUser → Bool
username_is username u = u.username == username

module _ (o : Outside) (db : Client Tables PrismaError) (q : Request) where
  unfoldable pub record_attempt : Option ℕ → ℕ → LoginOutcome → ℕ → Query (Unit {0})
  unfolding ◌>>=◌
  record_attempt auth_user_id email outcome attempt = do
    _ ← record_login_attempt db q.history_id q.now (record {
      auth_user_id = auth_user_id;
      email = email;
      success = is_success outcome;
      outcome = outcome;
      attempt = attempt;
    })
    pure tt

  unfoldable pub within_cooldown : ℕ → Bool
  within_cooldown issued_at = ltb (q.now - issued_at) o.options.resend_cooldown

  unfoldable pub dispatch_code : ℕ → Mail → Query Bool
  dispatch_code verification_id mail = elim (o.enqueue mail) [
    | err e ↦ pure false
    | ok message ↦
        either_way (attach_verification_email db verification_id message) (λ _. pure true)
          (λ _. pure true)
  ]

  abbrev pub mail_of : VerificationType → ℕ → Mail
  mail_of email_verification email = verification_email email q.code
  mail_of _ email = password_reset_email email q.code

  unfoldable pub issue_code : AuthUser → VerificationType → Query (Unit {0})
  unfolding dispatch_code ◌>>=◌
  issue_code auth_user type = do
    verification ← replace_verification db q.code_id q.now (record {
      auth_user_id = auth_user.id;
      code_hash = o.sha256 q.code;
      type = type;
      expires_at = q.now + o.options.verification_ttl;
      max_attempts = o.options.verification_max_attempts;
    })
    _ ← dispatch_code verification.id (mail_of type auth_user.email)
    pure tt

  -- The tests of `consumeCode` on the live code, in its order.
  unfoldable pub check_code : ℕ → Verification → Query ℕ
  unfolding ◌>>=◌
  check_code code verification =
      if leb verification.expires_at q.now
      then throw (unauthorized invalid_code)
      else (if leb verification.max_attempts verification.attempts
          then throw (unauthorized invalid_code)
          else (if verification.code_hash == o.sha256 code
              then pure verification.id
              else (register_verification_attempt db verification.id
                    (leb verification.max_attempts (verification.attempts + 1))
                  >>= λ _. throw (unauthorized invalid_code))))

  unfoldable pub or_invalid_code : {A : Type 0} → Option A → Query A
  or_invalid_code none = throw (unauthorized invalid_code)
  or_invalid_code (some a) = pure a

  unfoldable pub consume_code : ℕ → VerificationType → ℕ → Query ℕ
  unfolding check_code or_invalid_code ◌>>=◌
  consume_code auth_user_id type code = do
    found ← find_active_verification db auth_user_id type
    verification ← or_invalid_code found
    check_code code verification

  -- The end of `ensureProfile`: the pointer, or the account as it was.
  unfoldable pub point_to : AuthUser → ℕ → Query AuthUser
  unfolding either_way
  point_to auth_user user_id =
      either_way (attach_profile db auth_user.id user_id) (λ attached. pure attached)
        (λ _. pure auth_user)

  -- `findByAuthUserId`, after a conflict.
  abbrev pub recovered : AuthUser → Reply AppError (Option ℕ) → Query AuthUser
  recovered auth_user (ok (some existing)) = point_to auth_user existing
  recovered auth_user (ok none) = pure auth_user
  recovered auth_user (err e) = pure auth_user

  abbrev pub handed : AuthUser → Reply AppError ℕ → Query AuthUser
  handed auth_user (ok created) = point_to auth_user created
  handed auth_user (err conflict) = recovered auth_user (o.find_by_auth_user_id auth_user.id)
  handed auth_user (err e) = pure auth_user

  unfoldable pub ensure_profile : AuthUser → Query AuthUser
  unfolding point_to
  ensure_profile auth_user =
      if is_some auth_user.user_id
      then pure auth_user
      else elim (read_pending_profile auth_user.pending_profile) [
        | none ↦ pure auth_user
        | some p ↦ handed auth_user (o.create_profile auth_user.id auth_user.email p)
      ]

  unfoldable pub start_session : AuthUser → Query AuthenticatedResult
  unfolding ◌>>=◌
  start_session auth_user = do
    _ ← create_refresh_token db q.token_id (record {
      auth_user_id = auth_user.id;
      token_hash = o.sha256 q.token;
      family_id = q.family_id;
      expires_at = q.now + o.options.refresh_token_ttl;
    })
    access ← lifted (o.sign_access_token (claims_of auth_user q.family_id) q.now)
    pure (record {
      account = to_public_auth_user auth_user;
      tokens = record { access_token = access; refresh_token = q.token };
    })
