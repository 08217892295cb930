-- ===== src/Auth/Tables.antt =====
-- The rows of the auth database (services/auth/prisma/schema.prisma). Ids, addresses, names and
-- hashes are only compared, so they are numbers; a date is its milliseconds. A table has its newest
-- rows first.
use practical_microservice.Common.{ℕ, Bool, true, false, ◌&&◌, List, Option, none, some, ◌==◌}

pub data Role : Type 0 where
  user admin : Role

pub data AuthUserStatus : Type 0 where
  active suspended deleted : AuthUserStatus

pub data VerificationType : Type 0 where
  email_verification password_reset email_change : VerificationType

pub data VerificationStatus : Type 0 where
  pending verified_code expired revoked : VerificationStatus

pub data LoginOutcome : Type 0 where
  success invalid_credentials unknown_email not_verified account_locked : LoginOutcome
  account_inactive : LoginOutcome

pub data RevokeReason : Type 0 where
  rotated logged_out logged_out_all password_changed reuse_detected : RevokeReason

-- `profileSchema`
pub record PendingProfile : Type 0 where
  pub name : ℕ
  pub address : ℕ
  pub phone : ℕ

-- `pendingProfile` is a Json column: what it holds may not parse.
pub data Json : Type 0 where
  profile : PendingProfile → Json
  other_json : Json

pub record AuthUser : Type 0 where
  pub id : ℕ
  pub email : ℕ
  pub username : ℕ
  pub password_hash : ℕ
  pub role : Role
  pub status : AuthUserStatus
  pub verified : Bool
  pub verified_at : Option ℕ
  pub user_id : Option ℕ
  pub pending_profile : Option Json
  pub failed_login_attempts : ℕ
  pub locked_until : Option ℕ
  pub last_login_at : Option ℕ
  pub password_changed_at : Option ℕ

pub record Verification : Type 0 where
  pub id : ℕ
  pub auth_user_id : ℕ
  pub code_hash : ℕ
  pub type : VerificationType
  pub status : VerificationStatus
  pub attempts : ℕ
  pub max_attempts : ℕ
  pub issued_at : ℕ
  pub expires_at : ℕ
  pub verified_at : Option ℕ
  pub email_message_id : Option ℕ

pub record LoginHistory : Type 0 where
  pub id : ℕ
  pub auth_user_id : Option ℕ
  pub email : ℕ
  pub success : Bool
  pub outcome : LoginOutcome
  pub attempt : ℕ
  pub login_at : ℕ

pub record RefreshToken : Type 0 where
  pub id : ℕ
  pub auth_user_id : ℕ
  pub token_hash : ℕ
  pub family_id : ℕ
  pub expires_at : ℕ
  pub revoked_at : Option ℕ
  pub revoked_reason : Option RevokeReason
  pub replaced_by_id : Option ℕ

pub record Tables : Type 0 where
  pub users : List AuthUser
  pub verifications : List Verification
  pub history : List LoginHistory
  pub tokens : List RefreshToken

abbrev pub is_none {ℓ} : {A : Type ℓ} → Option A → Bool
is_none none = true
is_none (some a) = false

abbrev pub same_type : VerificationType → VerificationType → Bool
same_type email_verification email_verification = true
same_type password_reset password_reset = true
same_type email_change email_change = true
same_type _ _ = false

abbrev pub is_pending : VerificationStatus → Bool
is_pending pending = true
is_pending _ = false

abbrev pub is_active : AuthUserStatus → Bool
is_active active = true
is_active _ = false

-- `where: { authUserId, type, status: "PENDING" }`
abbrev pub is_live_code : ℕ → VerificationType → Verification → Bool
is_live_code auth_user_id type v =
    (v.auth_user_id == auth_user_id) && (same_type v.type type && is_pending v.status)

-- `revokedAt: null`
abbrev pub is_live : RefreshToken → Bool
is_live token = is_none token.revoked_at

abbrev pub is_live_in : ℕ → RefreshToken → Bool
is_live_in family_id token = (token.family_id == family_id) && is_live token

abbrev pub is_live_of : ℕ → RefreshToken → Bool
is_live_of auth_user_id token = (token.auth_user_id == auth_user_id) && is_live token
