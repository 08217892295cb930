-- ===== src/Auth/Repository.antt =====
-- `PrismaAuthRepository`: services/auth/src/modules/auth/auth.repository.ts. Each method is one
-- transaction of the client, or one statement, and answers with a result. None asks for an
-- isolation level, and here none overlaps another. Ids come from the
-- database, and so does the time `now` of a row that it dates itself.
use practical_microservice.Common.{
  ℕ, ◌+◌, Bool, true, false, not, ltb, leb, ◌&&◌, List, ◌∷◌, Option, none, some, if◌then◌else◌,
  find, filter,
}
use practical_microservice.Common.Calls.{ok, Call, pure, ◌>>=◌, map_error, Client}
use practical_microservice.Common.Rows.{take}
use practical_microservice.Auth.Errors.{AppError, PrismaError, to_app_error}
use practical_microservice.Auth.Tables.{
  user, active, VerificationType, pending, verified_code, expired, LoginOutcome, RevokeReason,
  rotated, password_changed, PendingProfile, profile, AuthUser, Verification, LoginHistory,
  RefreshToken, Tables, is_live_code, is_pending, is_live,
}
use practical_microservice.Auth.Statement.{
  Tx, hash_has, create_user, update_user, link_profile, create_code, update_code, create_token,
  update_token, revoke_tokens, revoke_codes, delete_tokens, delete_codes, delete_history, ids_of,
  token_has, is_empty, is_token_of, is_token_in,
}

abbrev pub Query : Type 0 → Type 0
Query = Call Tables AppError

-- `attempt`
unfoldable pub attempt : {A : Type 0} → Tx A → Query A
unfolding to_app_error
attempt m t = let (r, u) = m t in (map_error to_app_error r, u)

pub record NewAuthUserRecord : Type 0 where
  pub email : ℕ
  pub username : ℕ
  pub password_hash : ℕ
  pub pending_profile : PendingProfile

pub record NewVerificationRecord : Type 0 where
  pub auth_user_id : ℕ
  pub code_hash : ℕ
  pub type : VerificationType
  pub expires_at : ℕ
  pub max_attempts : ℕ

pub record NewLoginHistoryRecord : Type 0 where
  pub auth_user_id : Option ℕ
  pub email : ℕ
  pub success : Bool
  pub outcome : LoginOutcome
  pub attempt : ℕ

pub record NewRefreshTokenRecord : Type 0 where
  pub auth_user_id : ℕ
  pub token_hash : ℕ
  pub family_id : ℕ
  pub expires_at : ℕ

pub record RefreshTokenPurgeInput : Type 0 where
  pub expired_before : ℕ
  pub revoked_before : ℕ
  pub limit : ℕ

pub record RefreshTokenPurgeSummary : Type 0 where
  pub expired : ℕ
  pub revoked : ℕ

abbrev pub user_row : ℕ → NewAuthUserRecord → AuthUser
user_row id new = record {
  id = id;
  email = new.email;
  username = new.username;
  password_hash = new.password_hash;
  role = user;
  status = active;
  verified = false;
  verified_at = none;
  user_id = none;
  pending_profile = some (profile new.pending_profile);
  failed_login_attempts = 0;
  locked_until = none;
  last_login_at = none;
  password_changed_at = none;
}

abbrev pub code_row : ℕ → ℕ → NewVerificationRecord → Verification
code_row id now new = record {
  id = id;
  auth_user_id = new.auth_user_id;
  code_hash = new.code_hash;
  type = new.type;
  status = pending;
  attempts = 0;
  max_attempts = new.max_attempts;
  issued_at = now;
  expires_at = new.expires_at;
  verified_at = none;
  email_message_id = none;
}

abbrev pub history_row : ℕ → ℕ → NewLoginHistoryRecord → LoginHistory
history_row id now new = record {
  id = id;
  auth_user_id = new.auth_user_id;
  email = new.email;
  success = new.success;
  outcome = new.outcome;
  attempt = new.attempt;
  login_at = now;
}

abbrev pub token_row : ℕ → NewRefreshTokenRecord → RefreshToken
token_row id new = record {
  id = id;
  auth_user_id = new.auth_user_id;
  token_hash = new.token_hash;
  family_id = new.family_id;
  expires_at = new.expires_at;
  revoked_at = none;
  revoked_reason = none;
  replaced_by_id = none;
}

-- The writes of one row.
abbrev pub with_profile : ℕ → AuthUser → AuthUser
with_profile user_id u = record u { user_id = some user_id; pending_profile = none }

abbrev pub failed_once : Option ℕ → AuthUser → AuthUser
failed_once none u = record u { failed_login_attempts = u.failed_login_attempts + 1 }
failed_once (some until) u = record u {
  failed_login_attempts = u.failed_login_attempts + 1;
  locked_until = some until;
}

abbrev pub logged_in_at : ℕ → AuthUser → AuthUser
logged_in_at at u = record u {
  failed_login_attempts = 0;
  locked_until = none;
  last_login_at = some at;
}

abbrev pub guessed : Bool → Verification → Verification
guessed true v = record v { attempts = v.attempts + 1; status = expired }
guessed false v = record v { attempts = v.attempts + 1 }

abbrev pub verified_by : ℕ → Verification → Verification
verified_by at v = record v { status = verified_code; verified_at = some at }

abbrev pub verified_user : ℕ → AuthUser → AuthUser
verified_user at u = record u { verified = true; verified_at = some at }

abbrev pub reset_user : ℕ → ℕ → AuthUser → AuthUser
reset_user hash at u = record u {
  password_hash = hash;
  password_changed_at = some at;
  verified = true;
  verified_at = some at;
  failed_login_attempts = 0;
  locked_until = none;
}

abbrev pub changed_password : ℕ → ℕ → AuthUser → AuthUser
changed_password hash at u = record u { password_hash = hash; password_changed_at = some at }

abbrev pub rotated_to : ℕ → ℕ → RefreshToken → RefreshToken
rotated_to at successor r = record r {
  revoked_at = some at;
  revoked_reason = some rotated;
  replaced_by_id = some successor;
}

abbrev pub is_settled : Verification → Bool
is_settled v = not (is_pending v.status)

-- `{ lt: before }` on a column that may be null.
abbrev pub is_before : ℕ → Option ℕ → Bool
is_before before none = false
is_before before (some at) = ltb at before

module _ (db : Client Tables PrismaError) where
  abbrev pub statement : {A : Type 0} → Tx A → Query A
  statement {A} m = attempt (db.run A m)

  unfoldable pub create_auth_user_with_verification :
      ℕ → ℕ → ℕ → NewAuthUserRecord → (ℕ → NewVerificationRecord) → Query (AuthUser × Verification)
  create_auth_user_with_verification user_id code_id now new code = statement (do
    auth_user ← create_user (user_row user_id new)
    created ← create_code (code_row code_id now (code auth_user.id))
    pure (auth_user, created))

  unfoldable pub find_user : (AuthUser → Bool) → Query (Option AuthUser)
  find_user test = statement (λ t. (ok (find test t.users), t))

  unfoldable pub attach_profile : ℕ → ℕ → Query AuthUser
  attach_profile id user_id = statement (link_profile id user_id (with_profile user_id))

  unfoldable pub record_login_attempt : ℕ → ℕ → NewLoginHistoryRecord → Query LoginHistory
  record_login_attempt id now new = statement (λ t.
      (ok (history_row id now new), record t { history = history_row id now new ∷ t.history }))

  unfoldable pub register_failed_login : ℕ → Option ℕ → Query AuthUser
  register_failed_login id lock_until = statement (update_user id (failed_once lock_until))

  unfoldable pub register_successful_login : ℕ → ℕ → Query AuthUser
  register_successful_login id at = statement (update_user id (logged_in_at at))

  unfoldable pub find_active_verification : ℕ → VerificationType → Query (Option Verification)
  find_active_verification auth_user_id type =
      statement (λ t. (ok (find (is_live_code auth_user_id type) t.verifications), t))

  unfoldable pub replace_verification : ℕ → ℕ → NewVerificationRecord → Query Verification
  replace_verification id now new =
      statement (do _ ← revoke_codes new.auth_user_id new.type; create_code (code_row id now new))

  unfoldable pub register_verification_attempt : ℕ → Bool → Query Verification
  register_verification_attempt id exhausted =
      statement (update_code id (λ v. true) (guessed exhausted))

  unfoldable pub attach_verification_email : ℕ → ℕ → Query Verification
  attach_verification_email id message =
      statement (update_code id (λ v. true) (λ v. record v { email_message_id = some message }))

  unfoldable pub consume_email_verification : ℕ → ℕ → ℕ → Query AuthUser
  consume_email_verification code_id auth_user_id at = statement (do
    _ ← update_code code_id (λ v. is_pending v.status) (verified_by at)
    update_user auth_user_id (verified_user at))

  unfoldable pub consume_password_reset : ℕ → ℕ → ℕ → ℕ → Query AuthUser
  consume_password_reset code_id auth_user_id hash at = statement (do
    _ ← update_code code_id (λ v. is_pending v.status) (verified_by at)
    _ ← revoke_tokens (is_token_of auth_user_id) at password_changed
    update_user auth_user_id (reset_user hash at))

  unfoldable pub create_refresh_token : ℕ → NewRefreshTokenRecord → Query RefreshToken
  create_refresh_token id new = statement (create_token (token_row id new))

  unfoldable pub find_refresh_token_by_hash : ℕ → Query (Option RefreshToken)
  find_refresh_token_by_hash hash = statement (λ t. (ok (find (hash_has hash) t.tokens), t))

  unfoldable pub rotate_refresh_token : ℕ → ℕ → ℕ → NewRefreshTokenRecord → Query RefreshToken
  rotate_refresh_token id now current new = statement (do
    created ← create_token (token_row id new)
    _ ← update_token current is_live (rotated_to now created.id)
    pure created)

  unfoldable pub revoke_refresh_token : ℕ → ℕ → RevokeReason → Query ℕ
  revoke_refresh_token now id reason = statement (revoke_tokens (token_has id) now reason)

  unfoldable pub revoke_family : ℕ → ℕ → RevokeReason → Query ℕ
  revoke_family now family_id reason = statement (revoke_tokens (is_token_in family_id) now reason)

  unfoldable pub revoke_all_for_user : ℕ → ℕ → RevokeReason → Query ℕ
  revoke_all_for_user now auth_user_id reason =
      statement (revoke_tokens (is_token_of auth_user_id) now reason)

  unfoldable pub list_active_sessions : ℕ → ℕ → Query (List RefreshToken)
  list_active_sessions auth_user_id now = statement (λ t. (
    ok (filter (λ r. is_token_of auth_user_id r && (is_live r && ltb now r.expires_at)) t.tokens),
    t,
  ))

  unfoldable pub update_password : ℕ → ℕ → ℕ → Query AuthUser
  update_password auth_user_id hash at = statement (do
    _ ← revoke_tokens (is_token_of auth_user_id) at password_changed
    update_user auth_user_id (changed_password hash at))

  -- `deleteRefreshTokensWhere`: the ids first, then exactly those rows.
  unfoldable pub delete_refresh_tokens_where : (RefreshToken → Bool) → ℕ → Query ℕ
  delete_refresh_tokens_where test limit = do
    rows ← statement (λ t. (ok (take limit (filter test t.tokens)), t))
    if is_empty rows then pure 0 else statement (delete_tokens (ids_of (λ r. r.id) rows))

  unfoldable pub purge_refresh_tokens : RefreshTokenPurgeInput → Query RefreshTokenPurgeSummary
  unfolding delete_refresh_tokens_where
  purge_refresh_tokens input = do
    gone ← delete_refresh_tokens_where (λ r. ltb r.expires_at input.expired_before) input.limit
    cut ←
        delete_refresh_tokens_where
          (λ r.
            is_before input.revoked_before r.revoked_at && leb input.expired_before r.expires_at)
          input.limit
    pure (record { expired = gone; revoked = cut })

  unfoldable pub purge_verifications : ℕ → ℕ → Query ℕ
  purge_verifications before limit = do
    rows ← statement (λ t. (
      ok (take limit (filter (λ v. is_settled v && ltb v.expires_at before) t.verifications)),
      t,
    ))
    if is_empty rows then pure 0 else statement (delete_codes (ids_of (λ v. v.id) rows))

  unfoldable pub purge_login_history : ℕ → ℕ → Query ℕ
  purge_login_history before limit = do
    rows ← statement (λ t. (ok (take limit (filter (λ h. ltb h.login_at before) t.history)), t))
    if is_empty rows then pure 0 else statement (delete_history (ids_of (λ h. h.id) rows))
