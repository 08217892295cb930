-- ===== src/Auth/Service/Views.antt =====
-- What the auth service shows: the public shapes of auth.service.ts.
use practical_microservice.Common.{ℕ, Bool, false, List, [], ◌∷◌, Option, none, some, ◌==◌}
use practical_microservice.Auth.Tables.{Role, AuthUserStatus, AuthUser, RefreshToken}
use practical_microservice.Auth.Environment.{AccessTokenClaims}

-- The account without its hash, its counters and its parked profile.
pub record PublicAuthUser : Type 0 where
  pub id : ℕ
  pub email : ℕ
  pub username : ℕ
  pub role : Role
  pub status : AuthUserStatus
  pub verified : Bool
  pub user_id : Option ℕ
  pub last_login_at : Option ℕ

unfoldable pub to_public_auth_user : AuthUser → PublicAuthUser
to_public_auth_user u = record {
  id = u.id;
  email = u.email;
  username = u.username;
  role = u.role;
  status = u.status;
  verified = u.verified;
  user_id = u.user_id;
  last_login_at = u.last_login_at;
}

pub record AuthTokens : Type 0 where
  pub access_token : ℕ
  pub refresh_token : ℕ

-- `user` is a name of the roles here, so the account is `account`.
pub record AuthenticatedResult : Type 0 where
  pub account : PublicAuthUser
  pub tokens : AuthTokens

pub record RegistrationResult : Type 0 where
  pub account : PublicAuthUser
  pub email_queued : Bool

pub record VerificationResult : Type 0 where
  pub session : AuthenticatedResult
  pub profile_created : Bool

pub record SessionView : Type 0 where
  pub id : ℕ
  pub expires_at : ℕ
  pub current : Bool

abbrev pub claims_of : AuthUser → ℕ → AccessTokenClaims
claims_of u sid = record {
  sub = u.id;
  email = u.email;
  username = u.username;
  role = u.role;
  sid = sid;
}

unfoldable pub to_session_view : Option ℕ → RefreshToken → SessionView
to_session_view none r = record { id = r.id; expires_at = r.expires_at; current = false }
to_session_view (some sid) r = record {
  id = r.id;
  expires_at = r.expires_at;
  current = r.family_id == sid;
}

unfoldable pub views_of : Option ℕ → List RefreshToken → List SessionView
unfolding to_session_view
views_of sid [] = []
views_of sid (r ∷ rs) = to_session_view sid r ∷ views_of sid rs
