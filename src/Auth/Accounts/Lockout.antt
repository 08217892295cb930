-- ===== src/Auth/Accounts/Lockout.antt =====
-- `AuthService.login`: failed attempts are counted, and lock the account.
use practical_microservice.Common.{
  ℕ, ◌+◌, ◌≤◌, ◌<◌, ◌≡◌, refl, ◌∙◌, Bool, true, false, leb, List, [], ◌∷◌, Option, none, some, find,
  length, arith, inl, inr, Bool-cases, if◌then◌else◌, All,
}
use practical_microservice.Common.Calls.{ok, err, in_memory, ◌>>=◌}
use practical_microservice.Common.Rows.{update_first, find-update_same, find_holds}
use practical_microservice.Common.Keys.{IsKeyed, IsKeyed-update_first, find_id}
use practical_microservice.Auth.Errors.{AppError, PrismaError, unauthorized, too_many_requests}
use practical_microservice.Auth.Errors
use practical_microservice.Auth.Tables.{AuthUser, Tables}
use practical_microservice.Auth.Statement.{user_has, update_user}
use practical_microservice.Auth.Environment.{Outside, Request}
use practical_microservice.Auth.Repository.{
  find_user, attempt, failed_once, register_failed_login, record_login_attempt,
}
use practical_microservice.Auth.Service.{email_is, is_locked, record_attempt}
use practical_microservice.Auth.Service.Requests.{
  login, decide_login, reject_password, reject_account,
}

module _ (o : Outside) (email : ℕ) where
  -- One login attempt after the other, at one time.
  abbrev pub try_all : Request → List ℕ → Tables → Tables
  try_all q [] t = t
  try_all q (password ∷ passwords) t = try_all q passwords (login o in_memory q email password t).1

  abbrev pub IsWrongPassword : ℕ → ℕ → Type 0
  IsWrongPassword hash password = o.verify_password hash password ≡ ok false

  abbrev lock_until : Request → AuthUser → Option ℕ
  lock_until q a =
      if leb o.options.max_failed_login_attempts (a.failed_login_attempts + 1)
      then some (q.now + o.options.lock_duration)
      else none

  record IsOwner (t : Tables) (a : AuthUser) : Type 0 where
    pub keyed : IsKeyed (λ u. u.id) t.users
    pub found : find (email_is email) t.users ≡ some a

  same_account : (t : Tables) (a : AuthUser) → IsOwner t a → find (user_has a.id) t.users ≡ some a
  same_account t a s = find_id (λ u. u.id) (email_is email) t.users a s.keyed s.found

  wrong_password :
      (q : Request) (t : Tables) (a : AuthUser) (password : ℕ)
      → IsOwner t a
      → IsWrongPassword a.password_hash password
      → ((login o in_memory q email password t).0 ≡ err (unauthorized Errors.invalid_credentials))
        × ((login o in_memory q email password t).1.users
            ≡ update_first (user_has a.id) (failed_once (lock_until q a)) t.users)
  unfolding login decide_login reject_password find_user attempt register_failed_login
      record_attempt record_login_attempt update_user ◌>>=◌
  wrong_password q t a password s wrong = rw (s.found, wrong, same_account t a s) (refl, refl)

  -- An account that is locked answers a matching password with a 429 and any other with a 401, so
  -- its answer says which it was.
  login-locked :
      (q : Request) (t : Tables) (a : AuthUser) (password : ℕ) (matches : Bool)
      → IsKeyed (λ u. u.id) t.users
      → find (email_is email) t.users ≡ some a
      → is_locked q.now a ≡ true
      → o.verify_password a.password_hash password ≡ ok matches
      → (login o in_memory q email password t).0
        ≡ (if matches then err too_many_requests else err (unauthorized Errors.invalid_credentials))
  unfolding login decide_login reject_account find_user attempt record_attempt record_login_attempt
      ◌>>=◌
  login-locked q t a password false keyed found locked wrong =
      (wrong_password q t a password (record { keyed = keyed; found = found }) wrong).0
  login-locked q t a password true keyed found locked right = rw (found, right, locked) refl

  abbrev after_failure : Request → AuthUser → AuthUser
  after_failure q a = failed_once (lock_until q a) a

  -- As soon as the counter is at the limit, the account is locked until this date.
  abbrev LocksAtLimit : Request → AuthUser → Type 0
  LocksAtLimit q a =
      o.options.max_failed_login_attempts ≤ a.failed_login_attempts
      → a.locked_until ≡ some (q.now + o.options.lock_duration)

  -- What a failure leaves of the row.
  record IsFailed (q : Request) (a w : AuthUser) : Type 0 where
    pub hash : w.password_hash ≡ a.password_hash
    pub same : w.id ≡ a.id
    pub address : w.email ≡ a.email
    pub once : w.failed_login_attempts ≡ a.failed_login_attempts + 1
    pub locks : LocksAtLimit q w

  after_failure-IsFailed : (q : Request) (a : AuthUser) → IsFailed q a (after_failure q a)
  after_failure-IsFailed q a =
      elim (Bool-cases (leb o.options.max_failed_login_attempts (a.failed_login_attempts + 1))) [
        | inl e ↦
            rw (e, failed_once)
              (record { hash = refl; same = refl; address = refl; once = refl; locks = λ h. refl })
        | inr e ↦
            rw (e, failed_once)
              (record {
                hash = refl;
                same = refl;
                address = refl;
                once = refl;
                locks = λ h. absurd (ground arith);
              })
      ]

  kept_id : (l : Option ℕ) (u : AuthUser) → (failed_once l u).id ≡ u.id
  kept_id none u = refl
  kept_id (some at) u = refl

  failure-IsOwner :
      (q : Request) (t : Tables) (a : AuthUser) (password : ℕ)
      → IsOwner t a
      → IsWrongPassword a.password_hash password
      → IsOwner (login o in_memory q email password t).1 (after_failure q a)
  failure-IsOwner q t a password s wrong =
      let (answer, users) = wrong_password q t a password s wrong in
      let f = after_failure-IsFailed q a in
      record {
        keyed = rw users (
            IsKeyed-update_first (λ u. u.id) (user_has a.id) (failed_once (lock_until q a)) t.users
              (kept_id (lock_until q a)) s.keyed);
        found = rw users (
            find-update_same (email_is email) (user_has a.id) (failed_once (lock_until q a)) t.users
              a s.found (same_account t a s)
              (rw f.address (find_holds (email_is email) t.users a s.found)));
      }

  record IsCounted (q : Request) (u : Tables) (a : AuthUser) (n : ℕ) : Type 0 where
    pub row : AuthUser
    pub owner : IsOwner u row
    pub hash : row.password_hash ≡ a.password_hash
    pub total : row.failed_login_attempts ≡ a.failed_login_attempts + n
    pub locks : LocksAtLimit q row

  try_all-IsCounted :
      (q : Request) (passwords : List ℕ) (t : Tables) (a : AuthUser)
      → IsOwner t a
      → LocksAtLimit q a
      → All (IsWrongPassword a.password_hash) passwords
      → IsCounted q (try_all q passwords t) a (length passwords)
  try_all-IsCounted q [] t a s locks h = record {
    row = a;
    owner = s;
    hash = refl;
    total = omega arith;
    locks = locks;
  }
  try_all-IsCounted q (password ∷ passwords) t a s locks (wrong, h) =
      let f = after_failure-IsFailed q a in
      let rest =
        try_all-IsCounted q passwords (login o in_memory q email password t).1 (after_failure q a)
          (failure-IsOwner q t a password s wrong) f.locks (rw f.hash h) in
      record {
        row = rest.row;
        owner = rest.owner;
        hash = rest.hash ∙ f.hash;
        total = omega arith;
        locks = rest.locks;
      }

  locked_row :
      (now until : ℕ) (w : AuthUser)
      → w.locked_until ≡ some until
      → now < until
      → is_locked now w ≡ true
  locked_row now until w h early = rw (is_locked, h) (ground arith)

  -- When failed attempts at one time have brought an account's counter to the limit, the account is
  -- locked for the configured time: until then even the right password is answered with a 429.
  pub login-IsLockedOut :
      (q later : Request) (t : Tables) (a : AuthUser) (first : ℕ) (passwords : List ℕ) (right : ℕ)
      → IsKeyed (λ u. u.id) t.users
      → find (email_is email) t.users ≡ some a
      → All (IsWrongPassword a.password_hash) (first ∷ passwords)
      → o.options.max_failed_login_attempts ≤ a.failed_login_attempts + length (first ∷ passwords)
      → o.verify_password a.password_hash right ≡ ok true
      → later.now < q.now + o.options.lock_duration
      → (login o in_memory later email right (try_all q (first ∷ passwords) t)).0
        ≡ err too_many_requests
  login-IsLockedOut q later t a first passwords right keyed found (wrong, h) enough matches early =
      let s : IsOwner t a = record { keyed = keyed; found = found } in
      let f = after_failure-IsFailed q a in
      let c =
        try_all-IsCounted q passwords (login o in_memory q email first t).1 (after_failure q a)
          (failure-IsOwner q t a first s wrong) f.locks (rw f.hash h) in
      let until = c.locks (omega arith) in
      login-locked later (try_all q (first ∷ passwords) t) c.row right true c.owner.keyed
        c.owner.found (locked_row later.now (q.now + o.options.lock_duration) c.row until early)
        (rw (c.hash ∙ f.hash) matches)
