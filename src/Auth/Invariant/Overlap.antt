-- ===== src/Auth/Invariant/Overlap.antt =====
-- `replaceVerification` twice at the same time. The transaction names no isolation level, so the
-- database runs it at its default one, where a statement sees what was committed before it: each of
-- two transactions can revoke before either has created, and neither sees the other's code.
use practical_microservice.Common.{
  ℕ, ◌≡◌, refl, true, false, ◌==◌, List, [], ◌∷◌, inl, inr, ◌∙◌, any, arith, Bool-cases,
}
use practical_microservice.Common.Calls.{ok, in_memory, ◌>>=◌}
use practical_microservice.Common.Rows.{count, update_where, count-update_where_none}
use practical_microservice.Auth.Tables.{
  VerificationType, email_verification, password_reset, email_change, Verification, Tables,
  is_live_code, same_type,
}
use practical_microservice.Auth.Statement.{Tx, code_has, revoked_code, revoke_codes, create_code}
use practical_microservice.Auth.Repository.{
  NewVerificationRecord, code_row, replace_verification, attempt,
}

same_type_refl : (type : VerificationType) → same_type type type ≡ true
same_type_refl email_verification = refl
same_type_refl password_reset = refl
same_type_refl email_change = refl

module _ (account : ℕ) (type : VerificationType) where
  abbrev pub revoked_all : List Verification → List Verification
  revoked_all codes = update_where (is_live_code account type) revoked_code codes

  any-revoked_all :
      (id : ℕ) (codes : List Verification)
      → any (code_has id) (revoked_all codes) ≡ any (code_has id) codes
  any-revoked_all id [] = refl
  any-revoked_all id (v ∷ codes) = elim (Bool-cases (is_live_code account type v)) [
    | inl e ↦ ground (arith, any-revoked_all id codes)
    | inr e ↦ ground (arith, any-revoked_all id codes)
  ]

  count-revoked_all :
      (codes : List Verification) → count (is_live_code account type) (revoked_all codes) ≡ 0
  count-revoked_all codes =
      count-update_where_none (is_live_code account type) (is_live_code account type) revoked_code
        codes (λ r h. ground arith) (λ r h. h)

created :
    (row : Verification) (t : Tables)
    → any (code_has row.id) t.verifications ≡ false
    → create_code row t ≡ (ok row, record t { verifications = row ∷ t.verifications })
unfolding create_code
created row t fresh = rw fresh refl

replaced :
    (id now : ℕ) (new : NewVerificationRecord) (t : Tables)
    → any (code_has id) t.verifications ≡ false
    → replace_verification in_memory id now new t ≡ (
      ok (code_row id now new),
      record t {
        verifications = code_row id now new ∷ revoked_all new.auth_user_id new.type t.verifications;
      },
    )
unfolding replace_verification attempt revoke_codes ◌>>=◌
replaced id now new t fresh =
    let revoked = record t {
      verifications = revoked_all new.auth_user_id new.type t.verifications;
    } in
    let unused = any-revoked_all new.auth_user_id new.type id t.verifications ∙ fresh in
    rw (created (code_row id now new) revoked unused) refl

fresh_code :
    (id now : ℕ) (new : NewVerificationRecord)
    → is_live_code new.auth_user_id new.type (code_row id now new) ≡ true
fresh_code id now new = ground (arith, same_type_refl new.type)

-- The statements of two transactions for one account and kind, both revoking first.
abbrev pub overlapping :
    ℕ → ℕ → ℕ → ℕ → NewVerificationRecord → NewVerificationRecord → Tx Verification
overlapping id now other_id later new other = do
  _ ← revoke_codes new.auth_user_id new.type
  _ ← revoke_codes other.auth_user_id other.type
  _ ← create_code (code_row id now new)
  create_code (code_row other_id later other)

module _ (id now other_id later hash : ℕ) (new : NewVerificationRecord) (t : Tables)
    (fresh : any (code_has id) t.verifications ≡ false)
    (other_fresh : any (code_has other_id) t.verifications ≡ false)
    (distinct : (id == other_id) ≡ false) where
  abbrev other : NewVerificationRecord
  other = record new { code_hash = hash }

  abbrev revoked : List Verification
  revoked = revoked_all new.auth_user_id new.type t.verifications

  one_after_the_other :
      count
        (is_live_code new.auth_user_id new.type)
        ((replace_verification in_memory id now new >>= λ v.
            replace_verification in_memory other_id later other)
          t).1.verifications
      ≡ 1
  unfolding ◌>>=◌
  one_after_the_other =
      let codes = code_row id now new ∷ revoked in
      let unused : any (code_has other_id) codes ≡ false =
        let kept = any-revoked_all new.auth_user_id new.type other_id t.verifications in
        ground (arith, kept) in
      let none_live = count-revoked_all new.auth_user_id new.type revoked in
      rw
        (
          replaced id now new t fresh,
          replaced other_id later other (record t { verifications = codes }) unused,
          fresh_code other_id later other,
        )
        (ground (arith, none_live))

  both_at_once :
      count
        (is_live_code new.auth_user_id new.type)
        (overlapping id now other_id later new other t).1.verifications
      ≡ 2
  unfolding revoke_codes ◌>>=◌
  both_at_once =
      let account = new.auth_user_id in
      let codes = revoked_all account new.type revoked in
      let unused : any (code_has id) codes ≡ false =
        any-revoked_all account new.type id revoked
        ∙ any-revoked_all account new.type id t.verifications
        ∙ fresh in
      let other_unused : any (code_has other_id) (code_row id now new ∷ codes) ≡ false =
        let kept =
          any-revoked_all account new.type other_id revoked
          ∙ any-revoked_all account new.type other_id t.verifications in
        ground (arith, kept) in
      let none_live = count-revoked_all account new.type revoked in
      rw
        (
          created (code_row id now new) (record t { verifications = codes }) unused,
          created (code_row other_id later other)
              (record t { verifications = code_row id now new ∷ codes }) other_unused,
          fresh_code other_id later other,
        )
        (omega (arith, none_live))

  pub replace_verification-overlapping :
      (count
          (is_live_code new.auth_user_id new.type)
          ((replace_verification in_memory id now new >>= λ v.
              replace_verification in_memory other_id later other)
            t).1.verifications
        ≡ 1)
      × (count
            (is_live_code new.auth_user_id new.type)
            (overlapping id now other_id later new other t).1.verifications
          ≡ 2)
  replace_verification-overlapping = (one_after_the_other, both_at_once)
