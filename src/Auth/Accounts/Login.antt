-- ===== src/Auth/Accounts/Login.antt =====
-- `AuthService.login`.
use practical_microservice.Common.{
  ℕ, ◌≡◌, refl, ap, ◌∙◌, ◌⊎◌, Bool, true, false, Option, some, inl, inr, find, arith, Bool-cases,
  Option-cases,
}
use practical_microservice.Common.Calls.{ok, err, Client, ◌>>=◌, Reply-cases}
use practical_microservice.Auth.Errors.{
  AppError, PrismaError, to_app_error, too_many_requests, forbidden,
}
use practical_microservice.Auth.Tables.{
  AuthUser, Tables, is_active, LoginOutcome, account_locked, account_inactive, not_verified,
}
use practical_microservice.Auth.Environment.{Outside, Request}
use practical_microservice.Auth.Repository.{find_user, attempt}
use practical_microservice.Auth.Service.{email_is, is_locked}
use practical_microservice.Auth.Service.Views.{AuthenticatedResult}
use practical_microservice.Auth.Service.Requests.{
  login, decide_login, reject_password, reject_account, reject_unknown,
}
use practical_microservice.Auth.Agreement.{Fails, Fails-ok, throw-Fails, bind-Fails}

module _ (o : Outside) (db : Client Tables PrismaError) (q : Request) where
  reject_password-Fails : (u : AuthUser) (email : ℕ) → Fails (reject_password o db q u email)
  unfolding reject_password
  reject_password-Fails u email = search (bind-Fails, throw-Fails)

  reject_account-Fails :
      (u : AuthUser) (email : ℕ) (outcome : LoginOutcome) (e : AppError)
      → Fails (reject_account o db q u email outcome e)
  unfolding reject_account
  reject_account-Fails u email outcome e = search (bind-Fails, throw-Fails)

  reject_unknown-Fails : (email : ℕ) → Fails (reject_unknown o db q email)
  unfolding reject_unknown
  reject_unknown-Fails email = search (bind-Fails, throw-Fails)

  -- The account that may sign in with a password.
  pub record MaySignIn (t : Tables) (email password : ℕ) : Type 0 where
    pub account : AuthUser
    pub owner : find (email_is email) t.users ≡ some account
    pub matches : o.verify_password account.password_hash password ≡ ok true
    pub unlocked : is_locked q.now account ≡ false
    pub active : is_active account.status ≡ true
    pub verified : account.verified ≡ true

  decide_login_ok :
      (account : AuthUser) (email : ℕ) (matches : Bool) (t u : Tables)
      (answer : AuthenticatedResult)
      → decide_login o db q account email matches t ≡ (ok answer, u)
      → (matches ≡ true)
        × (is_locked q.now account ≡ false)
        × (is_active account.status ≡ true)
        × (account.verified ≡ true)
  unfolding decide_login reject_account
  decide_login_ok account email false t u answer h =
      absurd (Fails-ok _ t u answer (reject_password-Fails account email) h)
  decide_login_ok account email true t u answer h = elim (Bool-cases (is_locked q.now account)) [
    | inl e ↦ absurd (
        Fails-ok (reject_account o db q account email account_locked too_many_requests) t u answer
          (reject_account-Fails account email account_locked too_many_requests)
          (rw (decide_login, e) at h))
    | inr e ↦ elim (Bool-cases (is_active account.status)) [
      | inr k ↦ absurd (
          Fails-ok (reject_account o db q account email account_inactive forbidden) t u answer
            (reject_account-Fails account email account_inactive forbidden)
            (rw (decide_login, e, k) at h))
      | inl k ↦ elim (Bool-cases account.verified) [
        | inr l ↦ absurd (
            Fails-ok (reject_account o db q account email not_verified forbidden) t u answer
              (reject_account-Fails account email not_verified forbidden)
              (rw (decide_login, e, k, l) at h))
        | inl l ↦ (refl, e, k, l)
      ]
    ]
  ]

  find_user-cases :
      (test : AuthUser → Bool) (t : Tables)
      → (find_user db test t ≡ (ok (find test t.users), t))
        ⊎ ((e : AppError) × (find_user db test t ≡ (err e, t)))
  unfolding find_user attempt
  find_user-cases test t =
      elim (db.run_lem (Option AuthUser) (λ s. (ok (find test s.users), s)) t) [
        | inl e ↦ inl (rw e refl)
        | inr (x, e) ↦ inr (to_app_error x, rw e refl)
      ]

  -- `login` opens a session, over any client, only for the account with that address whose password
  -- matches, and only while the account is not locked, is active and has a verified address.
  pub login-MaySignIn :
      (t u : Tables) (email password : ℕ) (answer : AuthenticatedResult)
      → login o db q email password t ≡ (ok answer, u)
      → MaySignIn t email password
  unfolding login ◌>>=◌
  login-MaySignIn t u email password answer h = elim (find_user-cases (email_is email) t) [
    | inr (e, k) ↦ absurd (ground arith)
    | inl k ↦ elim (Option-cases (find (email_is email) t.users)) [
      | inl f ↦ absurd (
          Fails-ok (reject_unknown o db q email) t u answer (reject_unknown-Fails email)
            (rw (login, ◌>>=◌, k, f) at h))
      | inr (account, f) ↦ elim (Reply-cases (o.verify_password account.password_hash password)) [
        | inr (e, v) ↦ absurd (ground arith)
        | inl (matches, v) ↦
            let (m, unlocked, active, verified) =
              decide_login_ok account email matches t u answer (rw (login, ◌>>=◌, k, f, v) at h) in
            record {
              account = account;
              owner = f;
              matches = v ∙ ap ok m;
              unlocked = unlocked;
              active = active;
              verified = verified;
            }
      ]
    ]
  ]
