-- ===== src/Auth/Invariant/Writes.antt =====
-- Each transaction of the repository keeps the tables sound, over any lawful client.
use practical_microservice.Common.{ℕ, ◌≡◌, refl, Bool, true, false, List, ◌∷◌, inl, inr, any, arith}
use practical_microservice.Common.Calls.{pure, ◌>>=◌}
use practical_microservice.Auth.Tables.{
  VerificationType, RevokeReason, password_changed, AuthUser, RefreshToken, Verification, Tables,
  is_live, is_live_code, is_pending,
}
use practical_microservice.Auth.Statement.{
  code_has, Tx, create_user, update_user, create_code, update_code, create_token, update_token,
  revoke_tokens, revoke_codes, delete_tokens, delete_codes, delete_history, is_token_in,
  is_token_of, token_has,
}
use practical_microservice.Auth.Statement
use practical_microservice.Auth.Statement.Cases.{
  update_user-cases, create_user-cases, link_profile-cases, create_code-cases, update_code-cases,
  create_token-cases, update_token-cases,
}
use practical_microservice.Auth.Repository.{
  NewAuthUserRecord, NewVerificationRecord, NewRefreshTokenRecord, token_row, code_row, user_row,
  verified_by, guessed, rotated_to,
}
use practical_microservice.Auth.Invariant.Sessions.{
  IsSingle, StaysInFamily, cons-IsSingle, revoke-IsSingle, rotate-IsSingle, delete-IsSingle,
}
use practical_microservice.Auth.Invariant.Codes.{
  IsSingleCode, is_code_of, first-IsSingleCode, replace-IsSingleCode, update-IsSingleCode,
  delete-IsSingleCode,
}
use practical_microservice.Auth.Invariant.Keeps.{Lands, bind-Lands}

pub record IsSound (t : Tables) : Type 0 where
  pub sessions : IsSingle t.tokens
  pub codes : IsSingleCode t.verifications

-- An update that gives no code a new life.
abbrev pub EndsOnly : (Verification → Verification) → Type 0
EndsOnly f =
    (account : ℕ) (type : VerificationType) (v : Verification)
    → is_live_code account type (f v) ≡ true
    → is_live_code account type v ≡ true

module _ (t : Tables) (s : IsSound t) where
  pub update_user-Lands : (id : ℕ) (f : AuthUser → AuthUser) → Lands IsSound (update_user id f t)
  update_user-Lands id f = elim (update_user-cases t id f) [
    | inl h ↦ rw h.result (record { sessions = s.sessions; codes = s.codes })
    | inr h ↦ rw h tt
  ]

  pub link_profile-Lands :
      (id user_id : ℕ) (f : AuthUser → AuthUser)
      → Lands IsSound (Statement.link_profile id user_id f t)
  link_profile-Lands id user_id f = elim (link_profile-cases t id user_id f) [
    | inl h ↦ rw h.result (record { sessions = s.sessions; codes = s.codes })
    | inr (e, h) ↦ rw h tt
  ]

  pub update_code-Lands :
      (id : ℕ) (test : Verification → Bool) (f : Verification → Verification)
      → EndsOnly f
      → Lands IsSound (update_code id test f t)
  update_code-Lands id test f h = elim (update_code-cases t id test f) [
    | inl k ↦ rw k.result (record {
      sessions = s.sessions;
      codes = update-IsSingleCode id f t.verifications h s.codes;
    })
    | inr k ↦ rw k tt
  ]

  pub create_token-Lands :
      (id : ℕ) (new : NewRefreshTokenRecord)
      → any (is_token_in new.family_id) t.tokens ≡ false
      → Lands IsSound (create_token (token_row id new) t)
  create_token-Lands id new alone = elim (create_token-cases t (token_row id new)) [
    | inl h ↦ rw h.result (record {
      sessions = cons-IsSingle (token_row id new) t.tokens h.fresh alone s.sessions;
      codes = s.codes;
    })
    | inr h ↦ rw h tt
  ]

  pub rotate-Lands :
      (id now current : ℕ) (new : NewRefreshTokenRecord)
      → StaysInFamily current new.family_id t.tokens
      → Lands IsSound (
          (create_token (token_row id new) >>= λ created.
          update_token current is_live (rotated_to now created.id) >>= λ _. pure created)
            t)
  unfolding ◌>>=◌
  rotate-Lands id now current new same =
      let new_row = token_row id new in
      let u = record t { tokens = new_row ∷ t.tokens } in
      elim (create_token-cases t new_row) [
        | inr h ↦ rw h tt
        | inl h ↦ rw h.result (elim (update_token-cases u current is_live (rotated_to now id)) [
          | inr k ↦ rw k tt
          | inl k ↦ rw k.result (record {
            sessions =
                rotate-IsSingle new_row k.row current t.tokens k.found same now h.fresh refl
                  k.passed s.sessions;
            codes = s.codes;
          })
        ])
      ]

  pub revoke_tokens-Lands :
      (test : RefreshToken → Bool) (at : ℕ) (reason : RevokeReason)
      → Lands IsSound (revoke_tokens test at reason t)
  unfolding revoke_tokens
  revoke_tokens-Lands test at reason = record {
    sessions = revoke-IsSingle test at reason t.tokens s.sessions;
    codes = s.codes;
  }

  pub delete_tokens-Lands : (ids : List ℕ) → Lands IsSound (delete_tokens ids t)
  unfolding delete_tokens
  delete_tokens-Lands ids = record {
    sessions = delete-IsSingle ids t.tokens s.sessions;
    codes = s.codes;
  }

  pub delete_codes-Lands : (ids : List ℕ) → Lands IsSound (delete_codes ids t)
  unfolding delete_codes
  delete_codes-Lands ids = record {
    sessions = s.sessions;
    codes = delete-IsSingleCode ids t.verifications s.codes;
  }

  pub delete_history-Lands : (ids : List ℕ) → Lands IsSound (delete_history ids t)
  unfolding delete_history
  delete_history-Lands ids = record { sessions = s.sessions; codes = s.codes }

  pub replace-Lands :
      (id now : ℕ) (new : NewVerificationRecord)
      → Lands IsSound
          ((revoke_codes new.auth_user_id new.type >>= λ _. create_code (code_row id now new)) t)
  unfolding ◌>>=◌ revoke_codes
  replace-Lands id now new =
      elim (create_code-cases (revoke_codes new.auth_user_id new.type t).1 (code_row id now new)) [
        | inl h ↦ rw h (record {
          sessions = s.sessions;
          codes = replace-IsSingleCode (code_row id now new) t.verifications s.codes;
        })
        | inr h ↦ rw h tt
      ]

  pub register-Lands :
      (user_id code_id now : ℕ) (new : NewAuthUserRecord) (code : ℕ → NewVerificationRecord)
      → (code user_id).auth_user_id ≡ user_id
      → any (is_code_of user_id) t.verifications ≡ false
      → Lands {A = AuthUser × Verification} IsSound (
          (create_user (user_row user_id new) >>= λ auth_user.
          create_code (code_row code_id now (code auth_user.id)) >>= λ created.
          pure (auth_user, created))
            t)
  unfolding ◌>>=◌
  register-Lands user_id code_id now new code own alone =
      elim (create_user-cases t (user_row user_id new)) [
        | inr h ↦ rw h tt
        | inl h ↦
            rw h
              (elim (create_code-cases (record t { users = user_row user_id new ∷ t.users })
                (code_row code_id now (code user_id))) [
                  | inr k ↦ rw k tt
                  | inl k ↦ rw k (record {
                    sessions = s.sessions;
                    codes =
                        first-IsSingleCode (code_row code_id now (code user_id)) t.verifications
                          (rw own alone) s.codes;
                  })
                ])
      ]

pub verified_by-EndsOnly : (at : ℕ) → EndsOnly (verified_by at)
verified_by-EndsOnly at account type v h = absurd (ground arith)

pub guessed-EndsOnly : (exhausted : Bool) → EndsOnly (guessed exhausted)
guessed-EndsOnly true account type v h = absurd (ground arith)
guessed-EndsOnly false account type v h = h

module _ (t : Tables) (s : IsSound t) where
  pub consume_email-Lands :
      (code_id auth_user_id at : ℕ) (f : AuthUser → AuthUser)
      → Lands IsSound (
          (update_code code_id (λ v. is_pending v.status) (verified_by at) >>= λ _.
          update_user auth_user_id f)
            t)
  consume_email-Lands code_id auth_user_id at f =
      bind-Lands IsSound _ _ t
        (update_code-Lands t s code_id (λ v. is_pending v.status) (verified_by at)
          (verified_by-EndsOnly at))
        (λ v u k. update_user-Lands u k auth_user_id f)

  pub update_password-Lands :
      (auth_user_id at : ℕ) (f : AuthUser → AuthUser)
      → Lands IsSound (
          (revoke_tokens (is_token_of auth_user_id) at password_changed >>= λ _.
          update_user auth_user_id f)
            t)
  update_password-Lands auth_user_id at f =
      bind-Lands IsSound _ _ t
        (revoke_tokens-Lands t s (is_token_of auth_user_id) at password_changed)
        (λ n u k. update_user-Lands u k auth_user_id f)

module _ (t : Tables) (s : IsSound t) where
  pub consume_reset-Lands :
      (code_id auth_user_id at : ℕ) (f : AuthUser → AuthUser)
      → Lands IsSound (
          (update_code code_id (λ v. is_pending v.status) (verified_by at) >>= λ _.
          revoke_tokens (is_token_of auth_user_id) at password_changed >>= λ _.
          update_user auth_user_id f)
            t)
  consume_reset-Lands code_id auth_user_id at f =
      bind-Lands IsSound _ _ t
        (update_code-Lands t s code_id (λ v. is_pending v.status) (verified_by at)
          (verified_by-EndsOnly at))
        (λ v u k. update_password-Lands u k auth_user_id at f)
