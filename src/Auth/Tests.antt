-- ===== src/Auth/Tests.antt =====
-- The auth theorems at concrete tables.
use practical_microservice.Common.{
  ℕ, ◌+◌, ◌≤◌, ◌≡◌, refl, true, [], ◌∷◌, none, some, ◌==◌, find, arith,
}
use practical_microservice.Common.Calls.{Reply, ok, err, in_memory, ◌>>=◌}
use practical_microservice.Common.Rows.{count}
use practical_microservice.Auth.Errors.{AppError, too_many_requests}
use practical_microservice.Auth.Tables.{
  user, active, password_reset, pending, VerificationType, AuthUser, Verification, RefreshToken,
  Tables, is_live_in, is_live_code,
}
use practical_microservice.Auth.Statement.{
  hash_has, update_user, update_code, create_token, update_token, revoke_tokens,
}
use practical_microservice.Auth.Environment.{Outside, Request}
use practical_microservice.Auth.Repository.{
  NewRefreshTokenRecord, NewVerificationRecord, replace_verification, create_refresh_token,
  rotate_refresh_token, attempt, find_user, find_refresh_token_by_hash, consume_password_reset,
  update_password, find_active_verification, record_login_attempt, register_successful_login,
  rotated_to,
}
use practical_microservice.Auth.Service.{
  check_code, consume_code, or_invalid_code, record_attempt, start_session, ensure_profile,
}
use practical_microservice.Auth.Service.Views.{AuthTokens, AuthenticatedResult, to_public_auth_user}
use practical_microservice.Auth.Service.Requests.{
  refresh, refresh_stored, rotate, or_unauthorized, login, decide_login, accept_login,
  reset_password, change_password, resend_verification, forgot_password,
}
use practical_microservice.Auth.Reaper.{ReaperOptions, run_once}
use practical_microservice.Auth.Agreement.{IsFailure}
use practical_microservice.Auth.Invariant.Reach.{start, next, session_started, Reach-IsExclusive}
use practical_microservice.Auth.Invariant.Reach
use practical_microservice.Auth.Sessions.Refresh.{IsRefreshed, refresh-IsRefreshed}
use practical_microservice.Auth.Sessions.Reuse.{
  EndsSession, refresh-EndsSession, refresh-IsSingleUse,
}
use practical_microservice.Auth.Accounts.Guesses.{
  guess_all, consume_code-IsBurned, consume_code-IsAccepted,
}
use practical_microservice.Auth.Invariant.Overlap.{overlapping, replace_verification-overlapping}
use practical_microservice.Auth.Accounts.Login.{MaySignIn, login-MaySignIn}
use practical_microservice.Auth.Accounts.Lockout.{try_all, login-IsLockedOut}
use practical_microservice.Auth.Accounts.Passwords.{IsReset, reset_password-IsReset}
use practical_microservice.Auth.Accounts.Change.{IsChanged, change_password-IsChanged}
use practical_microservice.Auth.Accounts.Privacy.{forgot_password-tells_nothing}
use practical_microservice.Auth.Reaper.Sweep.{
  IsSpared, keeps_token, keeps_code, keeps_entry, run_once-IsSpared,
}

abbrev outside : Outside
outside = record {
  sha256 = λ n. n + 1000;
  hash_password = λ salt password. ok password;
  verify_password = λ hash password. ok (hash == password);
  sign_access_token = λ claims now. ok (claims.sid + now);
  enqueue = λ mail. ok 1;
  create_profile = λ id email profile. ok 9;
  find_by_auth_user_id = λ id. ok none;
  options = record {
    verification_ttl = 1000;
    verification_max_attempts = 3;
    resend_cooldown = 60;
    max_failed_login_attempts = 3;
    lock_duration = 500;
    refresh_token_ttl = 5000;
  };
}

abbrev request : Request
request = record {
  now = 100;
  user_id = 50;
  code_id = 51;
  token_id = 52;
  history_id = 53;
  family_id = 54;
  code = 222;
  token = 43;
  salt = 1;
}

abbrev later : Request
later = record request { now = 200; token_id = 62; token = 44 }

abbrev shopper : AuthUser
shopper = record {
  id = 1;
  email = 10;
  username = 20;
  password_hash = 77;
  role = user;
  status = active;
  verified = true;
  verified_at = some 5;
  user_id = some 9;
  pending_profile = none;
  failed_login_attempts = 1;
  locked_until = none;
  last_login_at = none;
  password_changed_at = none;
}

abbrev session : RefreshToken
session = record {
  id = 5;
  auth_user_id = 1;
  token_hash = 1042;
  family_id = 8;
  expires_at = 9000;
  revoked_at = none;
  revoked_reason = none;
  replaced_by_id = none;
}

abbrev reset_code : Verification
reset_code = record {
  id = 3;
  auth_user_id = 1;
  code_hash = 1111;
  type = password_reset;
  status = pending;
  attempts = 1;
  max_attempts = 3;
  issued_at = 0;
  expires_at = 900;
  verified_at = none;
  email_message_id = none;
}

abbrev tables : Tables
tables = record {
  users = shopper ∷ [];
  verifications = reset_code ∷ [];
  history = [];
  tokens = session ∷ [];
}

abbrev empty : Tables
empty = record { users = []; verifications = []; history = []; tokens = [] }

abbrev new_session : NewRefreshTokenRecord
new_session = record { auth_user_id = 1; token_hash = 1042; family_id = 8; expires_at = 9000 }

abbrev successor_session : NewRefreshTokenRecord
successor_session = record { auth_user_id = 1; token_hash = 1043; family_id = 8; expires_at = 9000 }

abbrev one_session : Tables
one_session = (create_refresh_token in_memory 5 new_session empty).1

abbrev rotated_session : Tables
rotated_session = (rotate_refresh_token in_memory 52 100 5 successor_session one_session).1

Reach-IsExclusive_example :
    ((family : ℕ) → count (is_live_in family) rotated_session.tokens ≤ 1)
    × ((account : ℕ) (type : VerificationType)
        → count (is_live_code account type) rotated_session.verifications ≤ 1)
unfolding create_refresh_token attempt create_token
Reach-IsExclusive_example = Reach-IsExclusive in_memory rotated_session (
    next (next start (session_started 5 new_session refl))
      (Reach.rotated 52 100 5 successor_session (λ r h. cc)))

abbrev answer : AuthTokens
answer = record { access_token = 108; refresh_token = 43 }

abbrev refreshed : Tables
refreshed = (refresh outside in_memory request 42 tables).1

refreshed_lem : refresh outside in_memory request 42 tables ≡ (ok answer, refreshed)
unfolding refresh refresh_stored rotate find_refresh_token_by_hash find_user rotate_refresh_token
    attempt or_unauthorized create_token update_token ◌>>=◌
refreshed_lem = refl

refresh-IsRefreshed_example :
    (stored : RefreshToken) × (find (hash_has 1042) tables.tokens ≡ some stored)
    × IsRefreshed outside request tables stored answer refreshed
refresh-IsRefreshed_example =
    refresh-IsRefreshed outside in_memory request 42 tables refreshed answer refreshed_lem

abbrev spent : RefreshToken
spent = rotated_to 100 52 session

refresh-EndsSession_example : EndsSession outside 42 later 8 (record tables { tokens = spent ∷ [] })
refresh-EndsSession_example =
    refresh-EndsSession outside 42 later (record tables { tokens = spent ∷ [] }) spent refl refl

refresh-IsSingleUse_example :
    (issued : RefreshToken) × (find (hash_has 1043) refreshed.tokens ≡ some issued)
    × EndsSession outside 42 later issued.family_id refreshed
refresh-IsSingleUse_example =
    refresh-IsSingleUse outside 42 in_memory request later tables refreshed answer (refl, tt)
      refreshed_lem

consume_code-IsBurned_example : IsFailure (
    consume_code outside in_memory later 1 password_reset 111
      (guess_all outside request 1 password_reset (5 ∷ 6 ∷ []) tables))
consume_code-IsBurned_example =
    consume_code-IsBurned outside request 1 password_reset tables reset_code (5 ∷ 6 ∷ [])
      (λ account type. ground arith) (refl, tt) refl (omega arith) (omega arith) (refl, (refl, tt))
      (omega arith) in_memory later 111

abbrev guessed_once : Tables
guessed_once = guess_all outside request 1 password_reset (5 ∷ []) tables

consume_code-IsAccepted_example :
    consume_code outside in_memory request 1 password_reset 111 guessed_once ≡ (ok 3, guessed_once)
consume_code-IsAccepted_example =
    consume_code-IsAccepted outside request 1 password_reset tables reset_code (5 ∷ [])
      (λ account type. ground arith) (refl, tt) refl (omega arith) (omega arith) (refl, tt)
      (omega arith) 111 refl

abbrev signed_in : Reply AppError AuthenticatedResult × Tables
signed_in = login outside in_memory request 10 77 tables

abbrev shopper_in : AuthUser
shopper_in = record shopper { failed_login_attempts = 0; last_login_at = some 100 }

abbrev result_in : AuthenticatedResult
result_in = record {
  account = to_public_auth_user shopper_in;
  tokens = record { access_token = 154; refresh_token = 43 };
}

signed_in_lem : login outside in_memory request 10 77 tables ≡ (ok result_in, signed_in.1)
unfolding login decide_login accept_login find_user attempt register_successful_login record_attempt
    record_login_attempt ensure_profile start_session create_refresh_token create_token update_user
    to_public_auth_user ◌>>=◌
signed_in_lem = refl

login-MaySignIn_example : MaySignIn outside in_memory request tables 10 77
login-MaySignIn_example =
    login-MaySignIn outside in_memory request tables signed_in.1 10 77 result_in signed_in_lem

login-IsLockedOut_example :
    (login outside in_memory later 10 77 (try_all outside 10 request (1 ∷ 2 ∷ []) tables)).0
    ≡ err too_many_requests
login-IsLockedOut_example =
    login-IsLockedOut outside 10 request later tables shopper 1 (2 ∷ []) 77 (refl, tt) refl
      (refl, (refl, tt)) (omega arith) refl (omega arith)

abbrev reset_done : Tables
reset_done = (reset_password outside in_memory request 10 111 88 tables).1

reset_done_lem : reset_password outside in_memory request 10 111 88 tables ≡ (ok tt, reset_done)
unfolding reset_password find_user attempt or_unauthorized consume_code check_code
    find_active_verification or_invalid_code consume_password_reset update_code revoke_tokens
    update_user ◌>>=◌
reset_done_lem = refl

reset_password-IsReset_example : IsReset outside request tables 10 111 88 reset_done
reset_password-IsReset_example =
    reset_password-IsReset outside in_memory request tables reset_done 10 111 88 reset_done_lem

abbrev change_done : Tables
change_done = (change_password outside in_memory request 1 77 88 tables).1

abbrev change_answer : AuthTokens
change_answer = record { access_token = 154; refresh_token = 43 }

change_done_lem :
    change_password outside in_memory request 1 77 88 tables ≡ (ok change_answer, change_done)
unfolding change_password find_user attempt or_unauthorized update_password revoke_tokens
    update_user start_session create_refresh_token create_token ◌>>=◌
change_done_lem = refl

change_password-IsChanged_example :
    IsChanged outside request tables 1 77 88 change_answer change_done
change_password-IsChanged_example =
    change_password-IsChanged outside in_memory request tables change_done 1 77 88 change_answer
      change_done_lem

forgot_password-tells_nothing_example :
    ((forgot_password outside in_memory request 10 tables).0 ≡ ok tt)
    × ((resend_verification outside in_memory request 10 tables).0 ≡ ok tt)
forgot_password-tells_nothing_example = forgot_password-tells_nothing outside request tables refl 10

abbrev retention : ReaperOptions
retention = record {
  expired_grace_days = 1;
  revoked_retention_days = 30;
  verification_retention_days = 0;
  login_history_retention_days = 90;
  batch_size = 500;
  interval_ms = 1000;
}

run_once-IsSpared_example :
    IsSpared
      (keeps_token retention 259200000)
      (keeps_code retention 259200000)
      (keeps_entry retention 259200000)
      tables
      (run_once in_memory retention 259200000 tables).1
run_once-IsSpared_example =
    run_once-IsSpared retention 259200000 in_memory tables
      (record { tokens = (refl, tt); codes = (refl, tt); history = tt })

abbrev new_code : NewVerificationRecord
new_code = record {
  auth_user_id = 1;
  code_hash = 1111;
  type = password_reset;
  expires_at = 900;
  max_attempts = 5;
}

abbrev repeated_code : NewVerificationRecord
repeated_code = record new_code { code_hash = 1112 }

replace_verification-overlapping_example :
    (count
        (is_live_code 1 password_reset)
        ((replace_verification in_memory 801 50 new_code >>= λ v.
            replace_verification in_memory 802 51 repeated_code)
          tables).1.verifications
      ≡ 1)
    × (count
          (is_live_code 1 password_reset)
          (overlapping 801 50 802 51 new_code repeated_code tables).1.verifications
        ≡ 2)
replace_verification-overlapping_example =
    replace_verification-overlapping 801 50 802 51 1112 new_code tables refl refl refl
