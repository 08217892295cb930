-- ===== src/Auth/Service/Requests.antt =====
-- The requests of `AuthService`: services/auth/src/modules/auth/auth.service.ts.
use practical_microservice.Common.{
  ℕ, ◌+◌, Bool, true, false, not, leb, ◌||◌, List, Option, none, some, if◌then◌else◌, is_some,
}
use practical_microservice.Common.Calls.{Reply, ok, err, pure, throw, ◌>>=◌, ◌>>◌, Client}
use practical_microservice.Auth.Errors.{
  AppError, PrismaError, conflict, forbidden, too_many_requests, unauthorized, UnauthorizedMessage,
  invalid_code, invalid_session, session_ended, authentication_required, wrong_current_password,
}
use practical_microservice.Auth.Errors
use practical_microservice.Auth.Tables.{
  VerificationType, email_verification, password_reset, LoginOutcome, success, invalid_credentials,
  unknown_email, not_verified, account_locked, account_inactive, logged_out, logged_out_all,
  reuse_detected, PendingProfile, AuthUser, Verification, RefreshToken, Tables, is_active,
}
use practical_microservice.Auth.Statement.{user_has}
use practical_microservice.Auth.Environment.{
  Request, verification_email, password_changed_email, Outside,
}
use practical_microservice.Auth.Repository.{
  Query, create_auth_user_with_verification, find_user, register_failed_login,
  register_successful_login, find_active_verification, consume_email_verification,
  consume_password_reset, find_refresh_token_by_hash, rotate_refresh_token, revoke_refresh_token,
  revoke_family, revoke_all_for_user, list_active_sessions, update_password,
}
use practical_microservice.Auth.Service.{
  lifted, email_is, username_is, is_locked, record_attempt, within_cooldown, dispatch_code,
  issue_code, consume_code, ensure_profile, start_session,
}
use practical_microservice.Auth.Service.Views.{
  AuthTokens, AuthenticatedResult, RegistrationResult, VerificationResult, PublicAuthUser,
  SessionView, to_public_auth_user, claims_of, views_of,
}

pub record RegisterInput : Type 0 where
  pub email : ℕ
  pub username : ℕ
  pub password : ℕ
  pub profile : PendingProfile

-- A row that must not be there.
unfoldable pub or_conflict : {A : Type 0} → Option A → Query (Unit {0})
or_conflict none = pure tt
or_conflict (some a) = throw conflict

unfoldable pub or_unauthorized : {A : Type 0} → UnauthorizedMessage → Option A → Query A
or_unauthorized message none = throw (unauthorized message)
or_unauthorized message (some a) = pure a

abbrev pub refuse_if : Bool → AppError → Query (Unit {0})
refuse_if true e = throw e
refuse_if false e = pure tt

module _ (o : Outside) (db : Client Tables PrismaError) (q : Request) where
  unfoldable pub register : RegisterInput → Query RegistrationResult
  unfolding ◌>>=◌
  register input = do
    by_email ← find_user db (email_is input.email)
    or_conflict by_email
    by_username ← find_user db (username_is input.username)
    or_conflict by_username
    password_hash ← lifted (o.hash_password q.salt input.password)
    (auth_user, verification) ←
        create_auth_user_with_verification db q.user_id q.code_id q.now
          (record {
            email = input.email;
            username = input.username;
            password_hash = password_hash;
            pending_profile = input.profile;
          })
          (λ id. record {
            auth_user_id = id;
            code_hash = o.sha256 q.code;
            type = email_verification;
            expires_at = q.now + o.options.verification_ttl;
            max_attempts = o.options.verification_max_attempts;
          })
    email_queued ← dispatch_code o db q verification.id (verification_email input.email q.code)
    pure (record { account = to_public_auth_user auth_user; email_queued = email_queued })

  abbrev pub is_cooling : Option Verification → Bool
  is_cooling none = false
  is_cooling (some active) = within_cooldown o db q active.issued_at

  -- The part that `resendVerification` and `forgotPassword` share.
  unfoldable pub issue_unless_cooling : VerificationType → AuthUser → Query (Unit {0})
  unfolding ◌>>=◌
  issue_unless_cooling type auth_user = do
    active ← find_active_verification db auth_user.id type
    if is_cooling active then pure tt else issue_code o db q auth_user type

  -- `!authUser || authUser.verified || authUser.status !== "ACTIVE"`
  abbrev pub wants_code : Option AuthUser → Option AuthUser
  wants_code none = none
  wants_code (some u) = if u.verified || not (is_active u.status) then none else some u

  abbrev pub is_usable : Option AuthUser → Option AuthUser
  is_usable none = none
  is_usable (some u) = if is_active u.status then some u else none

  abbrev pub issue_to : VerificationType → Option AuthUser → Query (Unit {0})
  issue_to type none = pure tt
  issue_to type (some u) = issue_unless_cooling type u

  unfoldable pub resend_verification : ℕ → Query (Unit {0})
  unfolding ◌>>=◌
  resend_verification email = do
    auth_user ← find_user db (email_is email)
    issue_to email_verification (wants_code auth_user)

  unfoldable pub forgot_password : ℕ → Query (Unit {0})
  unfolding ◌>>=◌
  forgot_password email = do
    auth_user ← find_user db (email_is email)
    issue_to password_reset (is_usable auth_user)

  unfoldable pub verify_email : ℕ → ℕ → Query VerificationResult
  unfolding or_unauthorized ◌>>=◌
  verify_email email code = do
    found ← find_user db (email_is email)
    auth_user ← or_unauthorized invalid_code (is_usable found)
    refuse_if auth_user.verified conflict
    verification ← consume_code o db q auth_user.id email_verification code
    verified ← consume_email_verification db verification auth_user.id q.now
    handoff ← ensure_profile o db q verified
    session ← start_session o db q handoff
    record_attempt o db q (some auth_user.id) auth_user.email success 1
    pure (record { session = session; profile_created = is_some handoff.user_id })

  -- The answer to credentials that do not match, and what it leaves behind.
  unfoldable pub reject_password : AuthUser → ℕ → Query AuthenticatedResult
  unfolding ◌>>=◌
  reject_password u email = do
    let attempt_number = u.failed_login_attempts + 1
    _ ← register_failed_login db u.id (
        if leb o.options.max_failed_login_attempts attempt_number
        then some (q.now + o.options.lock_duration)
        else none)
    record_attempt o db q (some u.id) email invalid_credentials attempt_number
    throw (unauthorized Errors.invalid_credentials)

  -- A refusal of an account whose password did match.
  unfoldable pub reject_account : AuthUser → ℕ → LoginOutcome → AppError → Query AuthenticatedResult
  unfolding ◌>>=◌
  reject_account u email outcome e = do
    record_attempt o db q (some u.id) email outcome u.failed_login_attempts
    throw e

  unfoldable pub accept_login : AuthUser → ℕ → Query AuthenticatedResult
  unfolding ◌>>=◌
  accept_login u email = do
    refreshed ← register_successful_login db u.id q.now
    record_attempt o db q (some u.id) email success 1
    handoff ← ensure_profile o db q refreshed
    start_session o db q handoff

  -- `login` for an account that was found, once the password has been compared.
  unfoldable pub decide_login : AuthUser → ℕ → Bool → Query AuthenticatedResult
  decide_login u email matches =
      if not matches
      then reject_password u email
      else (if is_locked q.now u
          then reject_account u email account_locked too_many_requests
          else (if not (is_active u.status)
              then reject_account u email account_inactive forbidden
              else (if not u.verified
                  then reject_account u email not_verified forbidden
                  else accept_login u email)))

  -- `login` for an address without an account: the hash is computed for its time alone.
  unfoldable pub reject_unknown : ℕ → Query AuthenticatedResult
  unfolding ◌>>=◌
  reject_unknown email = do
    record_attempt o db q none email unknown_email 1
    throw (unauthorized Errors.invalid_credentials)

  unfoldable pub login : ℕ → ℕ → Query AuthenticatedResult
  unfolding ◌>>=◌
  login email password = do
    found ← find_user db (email_is email)
    elim found [
      | none ↦ reject_unknown email
      | some u ↦ lifted (o.verify_password u.password_hash password) >>= decide_login u email
    ]

  -- `refresh` for a live token of a usable account.
  unfoldable pub rotate : RefreshToken → AuthUser → Query AuthTokens
  unfolding ◌>>=◌
  rotate stored u = do
    _ ← rotate_refresh_token db q.token_id q.now stored.id (record {
      auth_user_id = u.id;
      token_hash = o.sha256 q.token;
      family_id = stored.family_id;
      expires_at = q.now + o.options.refresh_token_ttl;
    })
    access ← lifted (o.sign_access_token (claims_of u stored.family_id) q.now)
    pure (record { access_token = access; refresh_token = q.token })

  unfoldable pub refuse_reuse : RefreshToken → Query AuthTokens
  unfolding ◌>>=◌
  refuse_reuse stored = do
    _ ← revoke_family db q.now stored.family_id reuse_detected
    throw (unauthorized session_ended)

  unfoldable pub refuse_account : AuthUser → Query AuthTokens
  unfolding ◌>>=◌
  refuse_account u = do _ ← revoke_all_for_user db q.now u.id logged_out_all; throw forbidden

  unfoldable pub refresh_stored : RefreshToken → Query AuthTokens
  unfolding or_unauthorized ◌>>=◌
  refresh_stored stored =
      if is_some stored.revoked_at
      then refuse_reuse stored
      else (if leb stored.expires_at q.now then throw (unauthorized invalid_session) else (do
        found ← find_user db (user_has stored.auth_user_id)
        u ← or_unauthorized invalid_session found
        if not (is_active u.status) || not u.verified then refuse_account u else rotate stored u))

  unfoldable pub refresh : ℕ → Query AuthTokens
  unfolding or_unauthorized ◌>>=◌
  refresh token = do
    found ← find_refresh_token_by_hash db (o.sha256 token)
    stored ← or_unauthorized invalid_session found
    refresh_stored stored

  unfoldable pub logout : ℕ → Query (Unit {0})
  unfolding ◌>>=◌
  logout token = do
    found ← find_refresh_token_by_hash db (o.sha256 token)
    elim found [
      | none ↦ pure tt
      | some stored ↦ revoke_refresh_token db q.now stored.id logged_out >>= λ _. pure tt
    ]

  unfoldable pub logout_all : ℕ → Query ℕ
  logout_all auth_user_id = revoke_all_for_user db q.now auth_user_id logged_out_all

  -- The mail about a new password: whether it was queued does not matter.
  abbrev pub told : Reply AppError ℕ → Query (Unit {0})
  told (ok message) = pure tt
  told (err e) = pure tt

  unfoldable pub reset_password : ℕ → ℕ → ℕ → Query (Unit {0})
  unfolding or_unauthorized ◌>>=◌
  reset_password email code password = do
    found ← find_user db (email_is email)
    auth_user ← or_unauthorized invalid_code (is_usable found)
    verification ← consume_code o db q auth_user.id password_reset code
    password_hash ← lifted (o.hash_password q.salt password)
    _ ← consume_password_reset db verification auth_user.id password_hash q.now
    told (o.enqueue (password_changed_email auth_user.email))

  unfoldable pub change_password : ℕ → ℕ → ℕ → Query AuthTokens
  unfolding or_unauthorized ◌>>=◌
  change_password auth_user_id current_password password = do
    found ← find_user db (user_has auth_user_id)
    u ← or_unauthorized authentication_required found
    matches ← lifted (o.verify_password u.password_hash current_password)
    refuse_if (not matches) (unauthorized wrong_current_password)
    password_hash ← lifted (o.hash_password q.salt password)
    updated ← update_password db u.id password_hash q.now
    told (o.enqueue (password_changed_email u.email))
    session ← start_session o db q updated
    pure session.tokens

  unfoldable pub get_by_id : ℕ → Query PublicAuthUser
  unfolding or_unauthorized ◌>>=◌
  get_by_id auth_user_id = do
    found ← find_user db (user_has auth_user_id)
    u ← or_unauthorized authentication_required found
    pure (to_public_auth_user u)

  unfoldable pub list_sessions : ℕ → Option ℕ → Query (List SessionView)
  unfolding ◌>>=◌
  list_sessions auth_user_id current = do
    sessions ← list_active_sessions db auth_user_id q.now
    pure (views_of current sessions)
