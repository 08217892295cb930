-- ===== src/Auth/Invariant/Reach.antt =====
-- The tables that the transactions of the repository reach, one after the other in any order: each
-- request of the service is a sequence of them, and requests may take turns between theirs.
-- Transactions that overlap in time are in Overlap.
use practical_microservice.Common.{
  ℕ, ◌≤◌, ◌≡◌, Bool, true, false, List, [], Option, some, any, arith,
}
use practical_microservice.Common.Calls.{Client}
use practical_microservice.Common.Rows.{count}
use practical_microservice.Auth.Errors.{PrismaError}
use practical_microservice.Auth.Tables.{
  VerificationType, RevokeReason, Tables, is_live_in, is_live_code,
}
use practical_microservice.Auth.Statement.{is_token_in, delete_tokens, delete_codes, delete_history}
use practical_microservice.Auth.Repository.{
  NewAuthUserRecord, NewVerificationRecord, NewRefreshTokenRecord, NewLoginHistoryRecord,
  create_auth_user_with_verification, attach_profile, record_login_attempt, register_failed_login,
  register_successful_login, replace_verification, register_verification_attempt,
  attach_verification_email, consume_email_verification, consume_password_reset,
  create_refresh_token, rotate_refresh_token, revoke_refresh_token, revoke_family,
  revoke_all_for_user, update_password, statement, changed_password, with_profile, verified_user,
  reset_user, failed_once, logged_in_at, guessed,
}
use practical_microservice.Auth.Invariant.Sessions.{StaysInFamily}
use practical_microservice.Auth.Invariant.Codes.{is_code_of}
use practical_microservice.Auth.Invariant.Keeps.{statement-Lands}
use practical_microservice.Auth.Invariant.Writes.{
  IsSound, guessed-EndsOnly, update_user-Lands, link_profile-Lands, update_code-Lands,
  create_token-Lands, rotate-Lands, revoke_tokens-Lands, delete_tokens-Lands, delete_codes-Lands,
  delete_history-Lands, replace-Lands, register-Lands, consume_email-Lands, update_password-Lands,
  consume_reset-Lands,
}

-- One transaction. New account ids and new families are fresh, since they are random, and a
-- rotation names the family of the token that it read.
pub data Step (db : Client Tables PrismaError) (t : Tables) : Tables → Type 0 where
  registered :
      (user_id code_id now : ℕ) (new : NewAuthUserRecord) (code : ℕ → NewVerificationRecord)
      → (code user_id).auth_user_id ≡ user_id
      → any (is_code_of user_id) t.verifications ≡ false
      → Step db t (create_auth_user_with_verification db user_id code_id now new code t).1
  profiled : (id user_id : ℕ) → Step db t (attach_profile db id user_id t).1
  recorded :
      (id now : ℕ) (new : NewLoginHistoryRecord)
      → Step db t (record_login_attempt db id now new t).1
  failed : (id : ℕ) (lock_until : Option ℕ) → Step db t (register_failed_login db id lock_until t).1
  succeeded : (id at : ℕ) → Step db t (register_successful_login db id at t).1
  replaced :
      (id now : ℕ) (new : NewVerificationRecord)
      → Step db t (replace_verification db id now new t).1
  tried :
      (id : ℕ) (exhausted : Bool) → Step db t (register_verification_attempt db id exhausted t).1
  attached : (id message : ℕ) → Step db t (attach_verification_email db id message t).1
  email_verified : (code_id id at : ℕ) → Step db t (consume_email_verification db code_id id at t).1
  reset : (code_id id hash at : ℕ) → Step db t (consume_password_reset db code_id id hash at t).1
  session_started :
      (id : ℕ) (new : NewRefreshTokenRecord)
      → any (is_token_in new.family_id) t.tokens ≡ false
      → Step db t (create_refresh_token db id new t).1
  rotated :
      (id now current : ℕ) (new : NewRefreshTokenRecord)
      → StaysInFamily current new.family_id t.tokens
      → Step db t (rotate_refresh_token db id now current new t).1
  token_revoked :
      (now id : ℕ) (reason : RevokeReason) → Step db t (revoke_refresh_token db now id reason t).1
  family_revoked :
      (now family : ℕ) (reason : RevokeReason) → Step db t (revoke_family db now family reason t).1
  user_revoked :
      (now id : ℕ) (reason : RevokeReason) → Step db t (revoke_all_for_user db now id reason t).1
  password_updated : (id hash at : ℕ) → Step db t (update_password db id hash at t).1
  tokens_deleted : (ids : List ℕ) → Step db t (statement db (delete_tokens ids) t).1
  codes_deleted : (ids : List ℕ) → Step db t (statement db (delete_codes ids) t).1
  history_deleted : (ids : List ℕ) → Step db t (statement db (delete_history ids) t).1

pub data Reach (db : Client Tables PrismaError) : Tables → Type 0 where
  start : Reach db (record { users = []; verifications = []; history = []; tokens = [] })
  next : {t u : Tables} → Reach db t → Step db t u → Reach db u

Step-IsSound : (db : Client Tables PrismaError) (t u : Tables) → Step db t u → IsSound t → IsSound u
unfolding create_auth_user_with_verification attach_profile record_login_attempt
    register_failed_login register_successful_login replace_verification
    register_verification_attempt attach_verification_email consume_email_verification
    consume_password_reset create_refresh_token rotate_refresh_token revoke_refresh_token
    revoke_family revoke_all_for_user update_password
Step-IsSound db t u (registered user_id code_id now new code own alone) s =
    statement-Lands IsSound db _ t (register-Lands t s user_id code_id now new code own alone) s
Step-IsSound db t u (profiled id user_id) s =
    statement-Lands IsSound db _ t (link_profile-Lands t s id user_id (with_profile user_id)) s
Step-IsSound db t u (recorded id now new) s =
    statement-Lands IsSound db _ t (record { sessions = s.sessions; codes = s.codes }) s
Step-IsSound db t u (failed id lock_until) s =
    statement-Lands IsSound db _ t (update_user-Lands t s id (failed_once lock_until)) s
Step-IsSound db t u (succeeded id at) s =
    statement-Lands IsSound db _ t (update_user-Lands t s id (logged_in_at at)) s
Step-IsSound db t u (replaced id now new) s =
    statement-Lands IsSound db _ t (replace-Lands t s id now new) s
Step-IsSound db t u (tried id exhausted) s =
    statement-Lands IsSound db _ t
      (update_code-Lands t s id (λ v. true) (guessed exhausted) (guessed-EndsOnly exhausted)) s
Step-IsSound db t u (attached id message) s =
    statement-Lands IsSound db _ t
      (update_code-Lands t s id (λ v. true) (λ v. record v { email_message_id = some message })
        (λ account type v h. h))
      s
Step-IsSound db t u (email_verified code_id id at) s =
    statement-Lands IsSound db _ t (consume_email-Lands t s code_id id at (verified_user at)) s
Step-IsSound db t u (reset code_id id hash at) s =
    statement-Lands IsSound db _ t (consume_reset-Lands t s code_id id at (reset_user hash at)) s
Step-IsSound db t u (session_started id new alone) s =
    statement-Lands IsSound db _ t (create_token-Lands t s id new alone) s
Step-IsSound db t u (rotated id now current new stays) s =
    statement-Lands IsSound db _ t (rotate-Lands t s id now current new stays) s
Step-IsSound db t u (token_revoked now id reason) s =
    statement-Lands IsSound db _ t (revoke_tokens-Lands t s _ now reason) s
Step-IsSound db t u (family_revoked now family reason) s =
    statement-Lands IsSound db _ t (revoke_tokens-Lands t s _ now reason) s
Step-IsSound db t u (user_revoked now id reason) s =
    statement-Lands IsSound db _ t (revoke_tokens-Lands t s _ now reason) s
Step-IsSound db t u (password_updated id hash at) s =
    statement-Lands IsSound db _ t (update_password-Lands t s id at (changed_password hash at)) s
Step-IsSound db t u (tokens_deleted ids) s =
    statement-Lands IsSound db _ t (delete_tokens-Lands t s ids) s
Step-IsSound db t u (codes_deleted ids) s =
    statement-Lands IsSound db _ t (delete_codes-Lands t s ids) s
Step-IsSound db t u (history_deleted ids) s =
    statement-Lands IsSound db _ t (delete_history-Lands t s ids) s

Reach-IsSound : (db : Client Tables PrismaError) (t : Tables) → Reach db t → IsSound t
Reach-IsSound db t start = record {
  sessions = record { sessions = λ family. omega arith; keyed = tt };
  codes = λ account type. omega arith;
}
Reach-IsSound db t (next r step) = Step-IsSound db _ t step (Reach-IsSound db _ r)

-- In tables reached from empty ones by any sequence of the repository's transactions over any
-- lawful client, each ended before the next begins, a session has at most one refresh token that
-- can be presented, and an account has at most one usable code of each kind. New account ids and
-- new sessions are fresh, and a rotation names the session of the token that it replaces.
pub Reach-IsExclusive :
    (db : Client Tables PrismaError) (t : Tables)
    → Reach db t
    → ((family : ℕ) → count (is_live_in family) t.tokens ≤ 1)
      × ((account : ℕ) (type : VerificationType)
          → count (is_live_code account type) t.verifications ≤ 1)
Reach-IsExclusive db t r = let s = Reach-IsSound db t r in (s.sessions.sessions, s.codes)
