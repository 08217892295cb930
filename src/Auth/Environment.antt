-- ===== src/Auth/Environment.antt =====
-- What the auth service uses of the outside: hashing, signing, the clients of the email and the
-- user service, the random values and ids of one request, and its configuration. Each is a
-- parameter. A request reads the clock once here.
use practical_microservice.Common.{ℕ, Bool, Option}
use practical_microservice.Common.Calls.{Reply}
use practical_microservice.Auth.Errors.{AppError}
use practical_microservice.Auth.Tables.{Role, PendingProfile}

-- `AuthServiceOptions` and the lifetime of a refresh token, in milliseconds.
pub record AuthServiceOptions : Type 0 where
  pub verification_ttl : ℕ
  pub verification_max_attempts : ℕ
  pub resend_cooldown : ℕ
  pub max_failed_login_attempts : ℕ
  pub lock_duration : ℕ
  pub refresh_token_ttl : ℕ

-- What one request draws: the time, ids of new rows, a code, a token and a salt.
pub record Request : Type 0 where
  pub now : ℕ
  pub user_id : ℕ
  pub code_id : ℕ
  pub token_id : ℕ
  pub history_id : ℕ
  pub family_id : ℕ
  pub code : ℕ
  pub token : ℕ
  pub salt : ℕ

-- `AccessTokenClaims` of services/auth/src/lib/tokens.ts.
pub record AccessTokenClaims : Type 0 where
  pub sub : ℕ
  pub email : ℕ
  pub username : ℕ
  pub role : Role
  pub sid : ℕ

-- The mails of auth.templates.ts, with their recipient.
pub data Mail : Type 0 where
  verification_email password_reset_email : ℕ → ℕ → Mail
  password_changed_email : ℕ → Mail

pub record Outside : Type 0 where
  pub sha256 : ℕ → ℕ
  pub hash_password : ℕ → ℕ → Reply AppError ℕ
  pub verify_password : ℕ → ℕ → Reply AppError Bool
  pub sign_access_token : AccessTokenClaims → ℕ → Reply AppError ℕ
  pub enqueue : Mail → Reply AppError ℕ
  pub create_profile : ℕ → ℕ → PendingProfile → Reply AppError ℕ
  pub find_by_auth_user_id : ℕ → Reply AppError (Option ℕ)
  pub options : AuthServiceOptions
