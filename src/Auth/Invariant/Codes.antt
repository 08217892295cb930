-- ===== src/Auth/Invariant/Codes.antt =====
-- What each transaction on verification codes does to the codes that can still be used.
use practical_microservice.Common.{
  ℕ, ◌≤◌, ◌≡◌, refl, Bool, true, false, not, ◌&&◌, List, ◌∷◌, ◌==◌, inl, inr, any, arith,
  Bool-cases,
}
use practical_microservice.Common.Rows.{
  count, update_where, update_first, count-update_first_le, count-update_where,
  count-update_where_none, count-filter_le, count-none_of_any,
}
use practical_microservice.Auth.Tables.{
  VerificationType, email_verification, password_reset, email_change, Verification, is_live_code,
  same_type,
}
use practical_microservice.Auth.Statement.{code_has, revoked_code, has_id, delete_ids}

-- At most one code of a kind can be used per account.
abbrev pub IsSingleCode : List Verification → Type 0
IsSingleCode codes =
    (account : ℕ) (type : VerificationType) → count (is_live_code account type) codes ≤ 1

abbrev pub is_code_of : ℕ → Verification → Bool
is_code_of account v = v.auth_user_id == account

pub first-IsSingleCode :
    (new : Verification) (codes : List Verification)
    → any (is_code_of new.auth_user_id) codes ≡ false
    → IsSingleCode codes
    → IsSingleCode (new ∷ codes)
first-IsSingleCode new codes alone s account type =
    elim (Bool-cases (new.auth_user_id == account)) [
      | inl e ↦
          let none_live =
            count-none_of_any (is_code_of new.auth_user_id) (is_live_code account type) codes alone
              (λ r h. ground arith) in
          ground (arith, none_live)
      | inr e ↦ ground (arith, s account type)
    ]

same_type_sound : (a b : VerificationType) → same_type a b ≡ true → a ≡ b
same_type_sound email_verification email_verification h = refl
same_type_sound password_reset password_reset h = refl
same_type_sound email_change email_change h = refl
same_type_sound email_verification password_reset h = absurd (ground arith)
same_type_sound email_verification email_change h = absurd (ground arith)
same_type_sound password_reset email_verification h = absurd (ground arith)
same_type_sound password_reset email_change h = absurd (ground arith)
same_type_sound email_change email_verification h = absurd (ground arith)
same_type_sound email_change password_reset h = absurd (ground arith)

-- The earlier codes are revoked before the new one comes.
pub replace-IsSingleCode :
    (new : Verification) (codes : List Verification)
    → IsSingleCode codes
    → IsSingleCode (new ∷ update_where (is_live_code new.auth_user_id new.type) revoked_code codes)
replace-IsSingleCode new codes s account type =
    elim (Bool-cases (new.auth_user_id == account && same_type new.type type)) [
      | inl e ↦
          let same : new.type ≡ type = same_type_sound new.type type (ground arith) in
          let none_live =
            count-update_where_none (is_live_code new.auth_user_id new.type)
              (is_live_code account type) revoked_code codes (λ r h. ground arith)
              (λ r h. rw (← same) (ground arith)) in
          ground (arith, none_live)
      | inr e ↦
          let kept =
            count-update_where (is_live_code new.auth_user_id new.type) (is_live_code account type)
              revoked_code codes (λ r h k. ground arith) in
          ground (arith, s account type, kept)
    ]

pub update-IsSingleCode :
    (id : ℕ) (f : Verification → Verification) (codes : List Verification)
    → ((account : ℕ) (type : VerificationType) (v : Verification)
        → is_live_code account type (f v) ≡ true
        → is_live_code account type v ≡ true)
    → IsSingleCode codes
    → IsSingleCode (update_first (code_has id) f codes)
update-IsSingleCode id f codes h s account type = omega (
  arith,
  s account type,
  count-update_first_le (code_has id) (is_live_code account type) f codes (h account type),
)

pub delete-IsSingleCode :
    (ids : List ℕ) (codes : List Verification)
    → IsSingleCode codes
    → IsSingleCode (delete_ids (λ v. v.id) ids codes)
delete-IsSingleCode ids codes s account type = omega (
  arith,
  s account type,
  count-filter_le (λ v. not (has_id ids v.id)) (is_live_code account type) codes,
)
