-- ===== src/Auth/Statement.antt =====
-- What the statements of the auth service's database client are documented to do.
pub mod Cases
use practical_microservice.Common.{
  ℕ, zero, suc, ◌+◌, ◌-◌, Bool, true, false, not, ltb, leb, ◌&&◌, ◌||◌, List, [], ◌∷◌, Option, none,
  some, ◌==◌, if◌then◌else◌, find, filter, any, length,
}
use practical_microservice.Common.Calls.{
  Reply, ok, err, Call, pure, throw, ◌>>=◌, ◌>>◌, map_error, Client,
}
use practical_microservice.Common.Rows.{count, update_where, update_first, take}
use practical_microservice.Auth.Errors.{
  AppError, PrismaError, unique_violation, record_not_found, to_app_error,
}
use practical_microservice.Auth.Tables
use practical_microservice.Auth.Tables.{
  Role, user, AuthUserStatus, active, VerificationType, VerificationStatus, pending, verified_code,
  expired, revoked, LoginOutcome, RevokeReason, rotated, password_changed, PendingProfile, Json,
  profile, AuthUser, Verification, LoginHistory, RefreshToken, Tables, is_none, is_live_code,
  is_pending, is_live, is_live_in, is_live_of,
}

-- The body of a transaction.
abbrev pub Tx : Type 0 → Type 0
Tx = Call Tables PrismaError

abbrev pub user_has : ℕ → AuthUser → Bool
user_has id u = u.id == id

abbrev pub code_has : ℕ → Verification → Bool
code_has id v = v.id == id

abbrev pub token_has : ℕ → RefreshToken → Bool
token_has id r = r.id == id

abbrev pub hash_has : ℕ → RefreshToken → Bool
hash_has hash r = r.token_hash == hash

abbrev pub is_user_id : ℕ → Option ℕ → Bool
is_user_id n none = false
is_user_id n (some m) = m == n

unfoldable pub create_user : AuthUser → Tx AuthUser
create_user new t =
    if any (λ u. (u.id == new.id) || ((u.email == new.email) || (u.username == new.username)))
      t.users
    then (err unique_violation, t)
    else (ok new, record t { users = new ∷ t.users })

unfoldable pub update_user : ℕ → (AuthUser → AuthUser) → Tx AuthUser
update_user id f t = elim (find (user_has id) t.users) [
  | none ↦ (err record_not_found, t)
  | some u ↦ (ok (f u), record t { users = update_first (user_has id) f t.users })
]

-- The profile's id is unique too.
unfoldable pub link_profile : ℕ → ℕ → (AuthUser → AuthUser) → Tx AuthUser
unfolding update_user
link_profile id user_id f t =
    if any (λ u. not (u.id == id) && is_user_id user_id u.user_id) t.users
    then (err unique_violation, t)
    else update_user id f t

unfoldable pub create_code : Verification → Tx Verification
create_code new t =
    if any (code_has new.id) t.verifications
    then (err unique_violation, t)
    else (ok new, record t { verifications = new ∷ t.verifications })

-- An update of the row with an id that passes a test.
unfoldable pub update_code :
    ℕ → (Verification → Bool) → (Verification → Verification) → Tx Verification
update_code id test f t = elim (find (code_has id) t.verifications) [
  | none ↦ (err record_not_found, t)
  | some v ↦
      if test v
      then (ok (f v), record t { verifications = update_first (code_has id) f t.verifications })
      else (err record_not_found, t)
]

unfoldable pub create_token : RefreshToken → Tx RefreshToken
create_token new t =
    if any (λ r. (r.id == new.id) || (r.token_hash == new.token_hash)) t.tokens
    then (err unique_violation, t)
    else (ok new, record t { tokens = new ∷ t.tokens })

unfoldable pub update_token :
    ℕ → (RefreshToken → Bool) → (RefreshToken → RefreshToken) → Tx RefreshToken
update_token id test f t = elim (find (token_has id) t.tokens) [
  | none ↦ (err record_not_found, t)
  | some r ↦
      if test r
      then (ok (f r), record t { tokens = update_first (token_has id) f t.tokens })
      else (err record_not_found, t)
]

abbrev pub revoke : ℕ → RevokeReason → RefreshToken → RefreshToken
revoke at reason token = record token { revoked_at = some at; revoked_reason = some reason }

-- `updateMany` over the live tokens that pass a test, with its count.
unfoldable pub revoke_tokens : (RefreshToken → Bool) → ℕ → RevokeReason → Tx ℕ
revoke_tokens test at reason t = (
  ok (count (λ r. test r && is_live r) t.tokens),
  record t { tokens = update_where (λ r. test r && is_live r) (revoke at reason) t.tokens },
)

abbrev pub has_id : List ℕ → ℕ → Bool
has_id [] n = false
has_id (x ∷ xs) n = n == x || has_id xs n

abbrev pub ids_of : {R : Type 0} → (R → ℕ) → List R → List ℕ
ids_of id_of [] = []
ids_of id_of (r ∷ rs) = id_of r ∷ ids_of id_of rs

-- A delete of at most `limit` rows that pass a test: their ids first, then exactly those rows.
abbrev pub delete_ids : {R : Type 0} → (R → ℕ) → List ℕ → List R → List R
delete_ids id_of ids = filter (λ r. not (has_id ids (id_of r)))

abbrev pub is_empty : {R : Type 0} → List R → Bool
is_empty [] = true
is_empty (r ∷ rs) = false

abbrev pub is_token_of : ℕ → RefreshToken → Bool
is_token_of auth_user_id r = r.auth_user_id == auth_user_id

abbrev pub is_token_in : ℕ → RefreshToken → Bool
is_token_in family_id r = r.family_id == family_id

abbrev pub revoked_code : Verification → Verification
revoked_code v = record v { status = revoked }

unfoldable pub revoke_codes : ℕ → VerificationType → Tx ℕ
revoke_codes auth_user_id type t = (
  ok (count (is_live_code auth_user_id type) t.verifications),
  record t {
    verifications = update_where (is_live_code auth_user_id type) revoked_code t.verifications;
  },
)

-- Deletes the rows with these ids, and counts them.
unfoldable pub delete_tokens : List ℕ → Tx ℕ
delete_tokens ids t = (
  ok (count (λ r. has_id ids r.id) t.tokens),
  record t { tokens = delete_ids (λ r. r.id) ids t.tokens },
)

unfoldable pub delete_codes : List ℕ → Tx ℕ
delete_codes ids t = (
  ok (count (λ v. has_id ids v.id) t.verifications),
  record t { verifications = delete_ids (λ v. v.id) ids t.verifications },
)

unfoldable pub delete_history : List ℕ → Tx ℕ
delete_history ids t = (
  ok (count (λ h. has_id ids h.id) t.history),
  record t { history = delete_ids (λ h. h.id) ids t.history },
)
