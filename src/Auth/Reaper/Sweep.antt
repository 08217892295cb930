-- ===== src/Auth/Reaper/Sweep.antt =====
-- `AuthReaper.runOnce`: what a sweep spares.
use practical_microservice.Common.{
  ℕ, ◌≡◌, refl, ◌∙◌, ◌⊎◌, Bool, true, false, not, ltb, ◌&&◌, List, inl, inr, filter, arith,
  Bool-cases, if◌then◌else◌,
}
use practical_microservice.Common.Calls.{Reply, ok, err, Client, resume, pure, ◌>>=◌}
use practical_microservice.Common.Rows.{take, count}
use practical_microservice.Common.Keys.{IsKeyed}
use practical_microservice.Auth.Errors.{AppError, PrismaError}
use practical_microservice.Auth.Tables.{RefreshToken, Verification, LoginHistory, Tables}
use practical_microservice.Auth.Statement.{
  Tx, has_id, ids_of, is_empty, delete_tokens, delete_codes, delete_history,
}
use practical_microservice.Auth.Repository.{
  Query, statement, attempt, is_before, is_settled, delete_refresh_tokens_where,
  purge_refresh_tokens, purge_verifications, purge_login_history,
}
use practical_microservice.Auth.Reaper.{ReaperOptions, run_once, days_before, unless_disabled}
use practical_microservice.Auth.Reaper.Rows.{
  remove_first, filter-remove_first, delete_ids-remove_first, IsKeyed-remove_first,
}

-- Token, code and history ids are unique.
pub record HasKeys (t : Tables) : Type 0 where
  pub tokens : IsKeyed (λ r. r.id) t.tokens
  pub codes : IsKeyed (λ v. v.id) t.verifications
  pub history : IsKeyed (λ h. h.id) t.history

module _ (db : Client Tables PrismaError) where
  statement-cases :
      (m : Tx ℕ) (n : ℕ) (t u : Tables)
      → m t ≡ (ok n, u)
      → ((statement db m t).1 ≡ t) ⊎ ((statement db m t).1 ≡ u)
  unfolding attempt
  statement-cases m n t u h = elim (db.run_lem ℕ m t) [
    | inl e ↦ inr (rw (e, h) refl)
    | inr (x, e) ↦ inl (rw e refl)
  ]

module _ (db : Client Tables PrismaError) {R : Type 0} where
  -- Rows are read, and deleted by their ids.
  pass : (Tables → List R) → (List R → Tx ℕ) → Query ℕ
  pass rows delete = statement db (λ t. (ok (rows t), t)) >>= λ found.
      if is_empty found then pure 0 else statement db (delete found)

  pass-cases :
      (rows : Tables → List R) (delete : List R → Tx ℕ) (n : ℕ) (t u : Tables)
      → delete (rows t) t ≡ (ok n, u)
      → ((pass rows delete t).1 ≡ t) ⊎ ((pass rows delete t).1 ≡ u)
  unfolding attempt ◌>>=◌ pass
  pass-cases rows delete n t u h = elim (db.run_lem (List R) (λ s. (ok (rows s), s)) t) [
    | inr (x, e) ↦ inl (rw e refl)
    | inl e ↦ elim (Bool-cases (is_empty (rows t))) [
      | inl k ↦ inl (rw (e, k) refl)
      | inr k ↦ rw (e, k) (statement-cases db (delete (rows t)) n t u h)
    ]
  ]

module _ (keep_token : RefreshToken → Bool) (keep_code : Verification → Bool)
    (keep_entry : LoginHistory → Bool) where
  -- The rows to keep are there as before, in their order.
  pub record IsSpared (t u : Tables) : Type 0 where
    pub users : u.users ≡ t.users
    pub tokens : filter keep_token u.tokens ≡ filter keep_token t.tokens
    pub codes : filter keep_code u.verifications ≡ filter keep_code t.verifications
    pub history : filter keep_entry u.history ≡ filter keep_entry t.history
    pub keys : HasKeys u

  IsSpared-self : (t : Tables) → HasKeys t → IsSpared t t
  IsSpared-self t k = record { users = refl; tokens = refl; codes = refl; history = refl; keys = k }

  IsSpared-trans : (t u v : Tables) → IsSpared t u → IsSpared u v → IsSpared t v
  IsSpared-trans t u v a b = record {
    users = b.users ∙ a.users;
    tokens = b.tokens ∙ a.tokens;
    codes = b.codes ∙ a.codes;
    history = b.history ∙ a.history;
    keys = b.keys;
  }

  record Spares {A : Type 0} (m : Query A) : Type 0 where
    pub at : (t : Tables) → HasKeys t → IsSpared t (m t).1

  pure-Spares : {A : Type 0} (a : A) → Spares {A = A} (pure a)
  pure-Spares a = record { at = λ t k. IsSpared-self t k }

  resume-Spares :
      {A B : Type 0} (f : A → Query B) (t : Tables) (r : Reply AppError A × Tables)
      → IsSpared t r.1
      → ((a : A) → Spares (f a))
      → IsSpared t (resume f r).1
  resume-Spares f t (ok a, u) s h = IsSpared-trans t u (f a u).1 s ((h a).at u s.keys)
  resume-Spares f t (err e, u) s h = s

  bind-Spares :
      {A B : Type 0} (m : Query A) (f : A → Query B)
      → Spares m
      → ((a : A) → Spares (f a))
      → Spares (m >>= f)
  unfolding ◌>>=◌
  bind-Spares m f s h = record { at = λ t k. resume-Spares f t (m t) (s.at t k) h }

  either-IsSpared : (t u w : Tables) → (w ≡ t) ⊎ (w ≡ u) → HasKeys t → IsSpared t u → IsSpared t w
  either-IsSpared t u w (inl e) k s = rw e (IsSpared-self t k)
  either-IsSpared t u w (inr e) k s = rw e s

  module _ (db : Client Tables PrismaError) where
    tokens-Spares :
        (test : RefreshToken → Bool) (limit : ℕ)
        → ((r : RefreshToken) → test r ≡ true → keep_token r ≡ false)
        → Spares (delete_refresh_tokens_where db test limit)
    unfolding delete_refresh_tokens_where pass delete_tokens
    tokens-Spares test limit apart = record {
      at = λ t k.
          either-IsSpared t (record t { tokens = remove_first test limit t.tokens }) _
            (pass-cases db (λ s. take limit (filter test s.tokens))
              (λ rows. delete_tokens (ids_of (λ r. r.id) rows))
              (count (λ r. has_id (ids_of (λ x. x.id) (take limit (filter test t.tokens))) r.id)
                t.tokens)
              t (record t { tokens = remove_first test limit t.tokens })
              (rw (delete_ids-remove_first (λ r. r.id) test limit t.tokens k.tokens) refl))
            k
            (record {
              users = refl;
              tokens = filter-remove_first test keep_token limit t.tokens apart;
              codes = refl;
              history = refl;
              keys = record {
                tokens = IsKeyed-remove_first (λ r. r.id) test limit t.tokens k.tokens;
                codes = k.codes;
                history = k.history;
              };
            });
    }

    codes-Spares :
        (before : ℕ) (limit : ℕ)
        → ((r : Verification)
            → (is_settled r && ltb r.expires_at before) ≡ true
            → keep_code r ≡ false)
        → Spares (purge_verifications db before limit)
    unfolding purge_verifications pass delete_codes
    codes-Spares before limit apart = record {
      at = λ t k.
          either-IsSpared t
            (record t {
              verifications =
                  remove_first (λ v. is_settled v && ltb v.expires_at before) limit t.verifications;
            })
            _
            (pass-cases db
              (λ s.
                take limit (filter (λ v. is_settled v && ltb v.expires_at before) s.verifications))
              (λ rows. delete_codes (ids_of (λ r. r.id) rows))
              (count
                (λ r.
                  has_id
                    (ids_of (λ x. x.id)
                      (take limit
                        (filter (λ v. is_settled v && ltb v.expires_at before) t.verifications)))
                    r.id)
                t.verifications)
              t
              (record t {
                verifications =
                    remove_first (λ v. is_settled v && ltb v.expires_at before) limit
                      t.verifications;
              })
              (rw
                (delete_ids-remove_first (λ r. r.id) (λ v. is_settled v && ltb v.expires_at before)
                  limit t.verifications k.codes)
                refl))
            k
            (record {
              users = refl;
              tokens = refl;
              codes =
                  filter-remove_first (λ v. is_settled v && ltb v.expires_at before) keep_code limit
                    t.verifications apart;
              history = refl;
              keys = record {
                tokens = k.tokens;
                codes =
                    IsKeyed-remove_first (λ r. r.id) (λ v. is_settled v && ltb v.expires_at before)
                      limit t.verifications k.codes;
                history = k.history;
              };
            });
    }

    history-Spares :
        (before : ℕ) (limit : ℕ)
        → ((r : LoginHistory) → ltb r.login_at before ≡ true → keep_entry r ≡ false)
        → Spares (purge_login_history db before limit)
    unfolding purge_login_history pass delete_history
    history-Spares before limit apart = record {
      at = λ t k.
          either-IsSpared t
            (record t { history = remove_first (λ h. ltb h.login_at before) limit t.history }) _
            (pass-cases db (λ s. take limit (filter (λ h. ltb h.login_at before) s.history))
              (λ rows. delete_history (ids_of (λ r. r.id) rows))
              (count
                (λ r.
                  has_id
                    (ids_of (λ x. x.id)
                      (take limit (filter (λ h. ltb h.login_at before) t.history)))
                    r.id)
                t.history)
              t (record t { history = remove_first (λ h. ltb h.login_at before) limit t.history })
              (rw
                (delete_ids-remove_first (λ r. r.id) (λ h. ltb h.login_at before) limit t.history
                  k.history)
                refl))
            k
            (record {
              users = refl;
              tokens = refl;
              codes = refl;
              history =
                  filter-remove_first (λ h. ltb h.login_at before) keep_entry limit t.history apart;
              keys = record {
                tokens = k.tokens;
                codes = k.codes;
                history =
                    IsKeyed-remove_first (λ r. r.id) (λ h. ltb h.login_at before) limit t.history
                      k.history;
              };
            });
    }

cut_off : (late cut within : Bool) → cut && within ≡ true → (not late && not cut) ≡ false
cut_off late cut within h = ground arith

module _ (options : ReaperOptions) (now : ℕ) where
  -- What the policy keeps: tokens that are not expired since the grace period and not revoked since
  -- the retention, codes that are pending or recent, and recent history; a sweep with a retention
  -- of no days is disabled.
  abbrev pub keeps_token : RefreshToken → Bool
  keeps_token r =
      not (ltb r.expires_at (days_before now options.expired_grace_days))
      && not (is_before (days_before now options.revoked_retention_days) r.revoked_at)

  abbrev pub keeps_code : Verification → Bool
  keeps_code v = not (
      ltb 0 options.verification_retention_days
      && (is_settled v && ltb v.expires_at (days_before now options.verification_retention_days)))

  abbrev pub keeps_entry : LoginHistory → Bool
  keeps_entry h = not (
      ltb 0 options.login_history_retention_days
      && ltb h.login_at (days_before now options.login_history_retention_days))

  abbrev SparesAll : {A : Type 0} → Query A → Type 0
  SparesAll = Spares keeps_token keeps_code keeps_entry

  disabled-Spares :
      (days : ℕ) (sweep : Query ℕ)
      → (ltb 0 days ≡ true → SparesAll sweep)
      → SparesAll (unless_disabled days sweep)
  disabled-Spares days sweep h = elim (Bool-cases (ltb 0 days)) [
    | inl e ↦ rw e (h e)
    | inr e ↦ rw e (pure-Spares keeps_token keeps_code keeps_entry 0)
  ]

  run_once-Spares : (db : Client Tables PrismaError) → SparesAll (run_once db options now)
  unfolding run_once purge_refresh_tokens
  run_once-Spares db =
      bind-Spares keeps_token keeps_code keeps_entry (purge_refresh_tokens db _) _
        (bind-Spares keeps_token keeps_code keeps_entry _ _
          (tokens-Spares keeps_token keeps_code keeps_entry db _ options.batch_size
            (λ r h. rw h refl))
          (λ gone.
            bind-Spares keeps_token keeps_code keeps_entry _ _
              (tokens-Spares keeps_token keeps_code keeps_entry db _ options.batch_size
                (λ r h. cut_off _ _ _ h))
              (λ cut. pure-Spares keeps_token keeps_code keeps_entry _)))
        (λ tokens.
          bind-Spares keeps_token keeps_code keeps_entry _ _
            (disabled-Spares options.verification_retention_days
              (purge_verifications db (days_before now options.verification_retention_days)
                options.batch_size)
              (λ on.
                codes-Spares keeps_token keeps_code keeps_entry db _ options.batch_size
                  (λ r h. rw (on, h) refl)))
            (λ codes.
              bind-Spares keeps_token keeps_code keeps_entry _ _
                (disabled-Spares options.login_history_retention_days
                  (purge_login_history db (days_before now options.login_history_retention_days)
                    options.batch_size)
                  (λ on.
                    history-Spares keeps_token keeps_code keeps_entry db _ options.batch_size
                      (λ r h. rw (on, h) refl)))
                (λ history. pure-Spares keeps_token keeps_code keeps_entry _)))

  -- A sweep, over any client, whether it finishes or stops at a failure, removes only rows that the
  -- policy does not keep: accounts, tokens that may still be presented or are within the retention,
  -- pending codes and recent history are there as before, in their order.
  pub run_once-IsSpared :
      (db : Client Tables PrismaError) (t : Tables)
      → HasKeys t
      → IsSpared keeps_token keeps_code keeps_entry t (run_once db options now t).1
  run_once-IsSpared db t k = (run_once-Spares db).at t k
