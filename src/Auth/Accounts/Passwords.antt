-- ===== src/Auth/Accounts/Passwords.antt =====
-- `AuthService.resetPassword` and `changePassword`.
use practical_microservice.Common.{
  ℕ, ◌+◌, ◌≡◌, ◌∙◌, true, false, leb, ◌==◌, ◌&&◌, none, some, inl, inr, find, arith, Bool-cases,
  Option-cases,
}
use practical_microservice.Common.Calls.{
  Reply, ok, err, Client, in_memory, outcome, answered, failed, throw, ◌>>=◌, Reply-cases,
}
use practical_microservice.Common.Rows.{count, update_first, update_where, count-update_where_none}
use practical_microservice.Auth.Errors.{AppError, PrismaError, unauthorized, invalid_code}
use practical_microservice.Auth.Tables.{
  VerificationType, verified_code, password_reset, password_changed, AuthUser, Verification, Tables,
  is_active, is_live, is_live_of, is_live_code, is_pending,
}
use practical_microservice.Auth.Statement.{user_has, code_has, is_token_of, revoke, revoke_tokens}
use practical_microservice.Auth.Statement.Cases.{update_user-cases, update_code-cases}
use practical_microservice.Auth.Environment.{Outside, Request, password_changed_email}
use practical_microservice.Auth.Repository.{
  find_user, find_active_verification, consume_password_reset, register_verification_attempt,
  attempt, reset_user, verified_by,
}
use practical_microservice.Auth.Service.{
  email_is, check_code, consume_code, or_invalid_code, lifted,
}
use practical_microservice.Auth.Service.Requests.{reset_password, or_unauthorized, is_usable, told}
use practical_microservice.Auth.Agreement.{Agrees-ok, Fails-ok, bind-Fails, throw-Fails}
use practical_microservice.Auth.Agreement.Requests.{reset_password-Agrees}

module _ (o : Outside) (q : Request) (t : Tables) where
  -- The code that a request was allowed to use.
  pub record IsRightCode (account : ℕ) (type : VerificationType) (code : ℕ) (v : Verification)
      : Type 0 where
    pub live : find (is_live_code account type) t.verifications ≡ some v
    pub unexpired : leb v.expires_at q.now ≡ false
    pub left : leb v.max_attempts v.attempts ≡ false
    pub matches : (v.code_hash == o.sha256 code) ≡ true

  consume_code_ok :
      (account : ℕ) (type : VerificationType) (code id : ℕ) (u : Tables)
      → consume_code o in_memory q account type code t ≡ (ok id, u)
      → (u ≡ t) × ((v : Verification) × IsRightCode account type code v × (v.id ≡ id))
  unfolding consume_code check_code find_active_verification attempt or_invalid_code ◌>>=◌
  consume_code_ok account type code id u h =
      elim (Option-cases (find (is_live_code account type) t.verifications)) [
        | inl e ↦ absurd (ground arith)
        | inr (v, e) ↦ elim (Bool-cases (leb v.expires_at q.now)) [
          | inl k ↦ absurd (ground arith)
          | inr k ↦ elim (Bool-cases (leb v.max_attempts v.attempts)) [
            | inl l ↦ absurd (ground arith)
            | inr l ↦ elim (Bool-cases (v.code_hash == o.sha256 code)) [
              | inr m ↦
                  let wrong =
                    register_verification_attempt in_memory v.id
                      (leb v.max_attempts (v.attempts + 1)) in
                  absurd (
                    Fails-ok (wrong >>= λ _. throw (unauthorized invalid_code)) t u id
                      (bind-Fails wrong _ (λ _. throw-Fails (unauthorized invalid_code)))
                      (rw (e, k, l, m) at h))
              | inl m ↦
                  let out : Reply AppError ℕ × Tables = (ok v.id, t) in
                  let same : out ≡ (ok id, u) = rw (e, k, l, m) at h in
                  (cc, (v, record { live = e; unexpired = k; left = l; matches = m }, cc))
            ]
          ]
        ]
      ]

  -- The tables after a password reset.
  abbrev pub reset_tables : ℕ → ℕ → ℕ → Tables
  reset_tables account code_id hash = record t {
    users =
        update_first (user_has account)
          (λ u. record u {
            password_hash = hash;
            password_changed_at = some q.now;
            verified = true;
            verified_at = some q.now;
            failed_login_attempts = 0;
            locked_until = none;
          })
          t.users;
    verifications =
        update_first (code_has code_id)
          (λ v. record v { status = verified_code; verified_at = some q.now }) t.verifications;
    tokens =
        update_where (λ r. is_token_of account r && is_live r)
          (λ r. record r { revoked_at = some q.now; revoked_reason = some password_changed })
          t.tokens;
  }

  consume_password_reset_ok :
      (code_id account hash : ℕ) (row : AuthUser) (u : Tables)
      → consume_password_reset in_memory code_id account hash q.now t ≡ (ok row, u)
      → u ≡ reset_tables account code_id hash
  unfolding consume_password_reset attempt ◌>>=◌ revoke_tokens
  consume_password_reset_ok code_id account hash row u h =
      elim (update_code-cases t code_id (λ v. is_pending v.status) (verified_by q.now)) [
        | inr e ↦ absurd (ground arith)
        | inl c ↦
            let middle = record t {
              verifications = update_first (code_has code_id) (verified_by q.now) t.verifications;
              tokens =
                  update_where (λ r. is_token_of account r && is_live r)
                    (revoke q.now password_changed) t.tokens;
            } in
            elim (update_user-cases middle account (reset_user hash q.now)) [
              | inr e ↦ absurd (ground arith)
              | inl k ↦
                  let out : Reply AppError AuthUser × Tables =
                    (ok (reset_user hash q.now k.row), reset_tables account code_id hash) in
                  let same : out ≡ (ok row, u) = rw (c.result, k.result) at h in cc
            ]
      ]

  -- What a reset with an address, a code and a new password was allowed by, and what it has done.
  pub record IsReset (email code password : ℕ) (u : Tables) : Type 0 where
    pub account : AuthUser
    pub owner : find (email_is email) t.users ≡ some account
    pub active : is_active account.status ≡ true
    pub code_row : Verification
    pub right : IsRightCode account.id password_reset code code_row
    pub hash : ℕ
    pub hashed : o.hash_password q.salt password ≡ ok hash
    pub written : u ≡ reset_tables account.id code_row.id hash
    pub signed_out : count (is_live_of account.id) u.tokens ≡ 0

  reset-signed_out :
      (account code_id hash : ℕ)
      → count (is_live_of account) (reset_tables account code_id hash).tokens ≡ 0
  reset-signed_out account code_id hash =
      count-update_where_none (λ r. is_token_of account r && is_live r) (is_live_of account)
        (revoke q.now password_changed) t.tokens (λ r h. ground arith) (λ r h. h)

-- Whether the mail was queued changes nothing.
ended :
    (o : Outside) (db : Client Tables PrismaError) (q : Request) (w u : Tables) (email : ℕ)
    (r : Reply AppError ℕ)
    → told o db q r w ≡ (ok tt, u)
    → u ≡ w
ended o db q w u email (ok message) h = cc
ended o db q w u email (err e) h = cc

-- A password is reset, over any client, only for an active account with that address and by the
-- right code, live, unexpired and with attempts left; then exactly this is written: the account has
-- the hash of the new password, the time of the change, a verified address and neither counter nor
-- lock, the code is used, and every live token of the account is revoked.
pub reset_password-IsReset :
    (o : Outside) (db : Client Tables PrismaError) (q : Request) (t u : Tables)
    (email code password : ℕ)
    → reset_password o db q email code password t ≡ (ok tt, u)
    → IsReset o q t email code password u
unfolding reset_password find_user attempt or_unauthorized ◌>>=◌
reset_password-IsReset o db q t u email code password h =
    let k = Agrees-ok _ _ t u tt (reset_password-Agrees o db q email code password) h in
    elim (Option-cases (find (email_is email) t.users)) [
      | inl e ↦ absurd (ground arith)
      | inr (account, e) ↦ elim (Bool-cases (is_active account.status)) [
        | inr a ↦ absurd (ground arith)
        | inl a ↦ elim (outcome (consume_code o in_memory q account.id password_reset code t)) [
          | failed x v c ↦ absurd (ground arith)
          | answered id v c ↦
              let (same, (code_row, right, same_id)) =
                consume_code_ok o q t account.id password_reset code id v c in
              elim (Reply-cases (o.hash_password q.salt password)) [
                | inr (x, d) ↦ absurd (ground arith)
                | inl (hash, d) ↦
                    elim (outcome (consume_password_reset in_memory id account.id hash q.now v)) [
                      | failed x w f ↦ absurd (ground arith)
                      | answered row w f ↦
                          let end =
                            ended o db q w u email
                              (o.enqueue (password_changed_email account.email))
                              (rw
                                (
                                  reset_password, find_user, attempt, ◌>>=◌, e, is_usable, a,
                                  or_unauthorized, c, d, lifted, f,
                                )
                                at k) in
                          let written : w ≡ reset_tables o q t account.id code_row.id hash =
                            consume_password_reset_ok o q t code_row.id account.id hash row w
                              (rw (same_id, ← same) f) in
                          record {
                            account = account;
                            owner = e;
                            active = a;
                            code_row = code_row;
                            right = right;
                            hash = hash;
                            hashed = d;
                            written = end ∙ written;
                            signed_out =
                                rw (end ∙ written)
                                  (reset-signed_out o q t account.id code_row.id hash);
                          }
                    ]
              ]
        ]
      ]
    ]
