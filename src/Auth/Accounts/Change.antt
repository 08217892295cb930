-- ===== src/Auth/Accounts/Change.antt =====
-- `AuthService.changePassword`.
use practical_microservice.Common.{
  ℕ, ◌+◌, ◌≡◌, refl, Bool, true, false, not, ◌&&◌, ◌∷◌, none, some, inl, inr, find, arith,
  Option-cases,
}
use practical_microservice.Common.Calls.{
  Reply, ok, err, Client, in_memory, outcome, answered, failed, ◌>>=◌, Reply-cases,
}
use practical_microservice.Common.Rows.{
  count, update_first, update_where, count-update_where_none, find_holds,
}
use practical_microservice.Auth.Errors.{AppError, PrismaError, unauthorized, wrong_current_password}
use practical_microservice.Auth.Tables.{
  password_changed, AuthUser, RefreshToken, Tables, is_live, is_live_of,
}
use practical_microservice.Auth.Statement.{user_has, is_token_of, revoke, revoke_tokens}
use practical_microservice.Auth.Statement.Cases.{update_user-cases, create_token-cases}
use practical_microservice.Auth.Environment.{Outside, Request, password_changed_email}
use practical_microservice.Auth.Repository.{
  find_user, update_password, create_refresh_token, attempt, changed_password,
}
use practical_microservice.Auth.Service.{start_session, lifted}
use practical_microservice.Auth.Service.Views.{
  AuthTokens, AuthenticatedResult, claims_of, to_public_auth_user,
}
use practical_microservice.Auth.Service.Requests.{change_password, or_unauthorized, refuse_if, told}
use practical_microservice.Auth.Agreement.{Agrees-ok}
use practical_microservice.Auth.Agreement.Requests.{change_password-Agrees}

module _ (o : Outside) (q : Request) (t : Tables) where
  -- The tables once the password is changed and the other sessions are revoked.
  abbrev pub changed_tables : ℕ → ℕ → Tables
  changed_tables account hash = record t {
    users =
        update_first (user_has account)
          (λ u. record u { password_hash = hash; password_changed_at = some q.now }) t.users;
    tokens =
        update_where (λ r. is_token_of account r && is_live r)
          (λ r. record r { revoked_at = some q.now; revoked_reason = some password_changed })
          t.tokens;
  }

  update_password_ok :
      (account hash : ℕ) (row : AuthUser) (u : Tables)
      → update_password in_memory account hash q.now t ≡ (ok row, u)
      → (u ≡ changed_tables account hash) × (row.id ≡ account)
  unfolding update_password attempt ◌>>=◌ revoke_tokens
  update_password_ok account hash row u h =
      let middle = record t {
        tokens =
            update_where (λ r. is_token_of account r && is_live r) (revoke q.now password_changed)
              t.tokens;
      } in
      elim (update_user-cases middle account (changed_password hash q.now)) [
        | inr e ↦ absurd (ground arith)
        | inl k ↦
            let out : Reply AppError AuthUser × Tables =
              (ok (changed_password hash q.now k.row), changed_tables account hash) in
            let same : out ≡ (ok row, u) = rw k.result at h in
            let named = find_holds (user_has account) t.users k.row k.found in
            let row_is : changed_password hash q.now k.row ≡ row = cc in
            (cc, rw (← row_is) (ground arith))
      ]

  -- The token of a session that starts.
  abbrev pub session_token : ℕ → RefreshToken
  session_token account = record {
    id = q.token_id;
    auth_user_id = account;
    token_hash = o.sha256 q.token;
    family_id = q.family_id;
    expires_at = q.now + o.options.refresh_token_ttl;
    revoked_at = none;
    revoked_reason = none;
    replaced_by_id = none;
  }

  start_session_ok :
      (u : AuthUser) (answer : AuthenticatedResult) (w : Tables)
      → start_session o in_memory q u t ≡ (ok answer, w)
      → (w ≡ record t { tokens = session_token u.id ∷ t.tokens })
        × (answer.tokens.refresh_token ≡ q.token)
  unfolding start_session create_refresh_token attempt ◌>>=◌
  start_session_ok u answer w h = elim (create_token-cases t (session_token u.id)) [
    | inr e ↦ absurd (ground arith)
    | inl c ↦ elim (Reply-cases (o.sign_access_token (claims_of u q.family_id) q.now)) [
      | inr (x, e) ↦ absurd (ground arith)
      | inl (access, e) ↦
          let session : AuthenticatedResult = record {
            account = to_public_auth_user u;
            tokens = record { access_token = access; refresh_token = q.token };
          } in
          let after = record t { tokens = session_token u.id ∷ t.tokens } in
          let out : Reply AppError AuthenticatedResult × Tables = (ok session, after) in
          let same : out ≡ (ok answer, w) = rw (c.result, e) at h in
          let answer_is : session ≡ answer = cc in (cc, rw (← answer_is) refl)
    ]
  ]

-- What a change of password was allowed by, and what it has done.
pub record IsChanged (o : Outside) (q : Request) (t : Tables) (auth_user_id current password : ℕ)
    (tokens : AuthTokens) (u : Tables) : Type 0 where
  pub account : AuthUser
  pub owner : find (user_has auth_user_id) t.users ≡ some account
  pub matches : o.verify_password account.password_hash current ≡ ok true
  pub hash : ℕ
  pub hashed : o.hash_password q.salt password ≡ ok hash
  pub users : u.users ≡ (changed_tables o q t account.id hash).users
  pub issued : tokens.refresh_token ≡ q.token
  pub newest :
      u.tokens ≡ session_token o q t account.id ∷ (changed_tables o q t account.id hash).tokens
  pub alone : count (is_live_of account.id) u.tokens ≡ 1

refuse_if_ok :
    (o : Outside) (db : Client Tables PrismaError) (q : Request) (m : Bool) (t u : Tables)
    → refuse_if (not m) (unauthorized wrong_current_password) t ≡ (ok tt, u)
    → m ≡ true
refuse_if_ok o db q true t u h = refl
refuse_if_ok o db q false t u h = absurd (ground arith)

told_eq :
    (o : Outside) (db : Client Tables PrismaError) (q : Request) (r : Reply AppError ℕ) (t : Tables)
    → told o db q r t ≡ (ok tt, t)
told_eq o db q (ok message) t = refl
told_eq o db q (err e) t = refl

not_answered :
    (x : AppError) (y u : Tables) (tokens : AuthTokens)
    → ◌≡◌ {A = Reply AppError AuthTokens × Tables} (err x, y) (ok tokens, u)
    → ⊥
not_answered x y u tokens h = cc

changed-alone :
    (o : Outside) (q : Request) (t : Tables) (account hash : ℕ)
    → count
        (is_live_of account)
        (session_token o q t account ∷ (changed_tables o q t account hash).tokens)
      ≡ 1
changed-alone o q t account hash =
    let none_live =
      count-update_where_none (λ r. is_token_of account r && is_live r) (is_live_of account)
        (revoke q.now password_changed) t.tokens (λ r h. ground arith) (λ r h. h) in
    ground (arith, none_live)

-- A password is changed, over any client, only for the account named and against its current
-- password; then the account has the hash of the new one and the time of the change, every earlier
-- session of it is revoked, and its one live token is that of the session that the answer names,
-- which is new, of the account, and has the configured lifetime.
pub change_password-IsChanged :
    (o : Outside) (db : Client Tables PrismaError) (q : Request) (t u : Tables)
    (auth_user_id current password : ℕ) (tokens : AuthTokens)
    → change_password o db q auth_user_id current password t ≡ (ok tokens, u)
    → IsChanged o q t auth_user_id current password tokens u
unfolding change_password find_user attempt or_unauthorized ◌>>=◌
change_password-IsChanged o db q t u auth_user_id current password tokens h =
    let k =
      Agrees-ok _ _ t u tokens (change_password-Agrees o db q auth_user_id current password) h in
    elim (Option-cases (find (user_has auth_user_id) t.users)) [
      | inl e ↦ absurd (ground arith)
      | inr (account, e) ↦ elim (Reply-cases (o.verify_password account.password_hash current)) [
        | inr (x, v) ↦ absurd (ground arith)
        | inl (false, v) ↦ absurd (ground arith)
        | inl (true, v) ↦ elim (Reply-cases (o.hash_password q.salt password)) [
          | inr (x, d) ↦ absurd (ground arith)
          | inl (hash, d) ↦ elim (outcome (update_password in_memory account.id hash q.now t)) [
            | failed x w f ↦ absurd (ground arith)
            | answered row w f ↦
                let mailed =
                  told_eq o in_memory q (o.enqueue (password_changed_email account.email)) w in
                elim (outcome (start_session o in_memory q row w)) [
                  | failed x y g ↦ absurd (
                      not_answered x y u tokens (
                        rw
                          (
                            change_password, find_user, attempt, ◌>>=◌, e, or_unauthorized, v, d,
                            lifted, f, mailed, g,
                          )
                          at k))
                  | answered answer y g ↦
                      let out : Reply AppError AuthTokens × Tables = (ok answer.tokens, y) in
                      let same : out ≡ (ok tokens, u) =
                        rw
                          (
                            change_password, find_user, attempt, ◌>>=◌, e, or_unauthorized, v, d,
                            lifted, f, mailed, g,
                          )
                          at k in
                      let end : y ≡ u = cc in
                      let named : answer.tokens ≡ tokens = cc in
                      let (changed, row_id) = update_password_ok o q t account.id hash row w f in
                      let (started, issued) = start_session_ok o q w row answer y g in
                      let newest : u.tokens
                          ≡ session_token o q t account.id
                            ∷ (changed_tables o q t account.id hash).tokens =
                        rw (← end, started, changed, row_id) refl in
                      record {
                        account = account;
                        owner = e;
                        matches = v;
                        hash = hash;
                        hashed = d;
                        users = rw (← end, started, changed) refl;
                        issued = rw (← named) issued;
                        newest = newest;
                        alone = rw newest (changed-alone o q t account.id hash);
                      }
                ]
          ]
        ]
      ]
    ]
