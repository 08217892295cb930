-- ===== src/Auth/Statement/Cases.antt =====
-- The outcomes of a statement: what it writes, or that it fails.
use practical_microservice.Common.{
  ℕ, ◌≡◌, refl, ◌⊎◌, Bool, true, false, not, ◌&&◌, ◌||◌, ◌∷◌, some, ◌==◌, inl, inr, find, any,
  Bool-cases, Option-cases,
}
use practical_microservice.Common.Rows.{update_first, any_left, any_right}
use practical_microservice.Common.Calls.{Reply, ok, err}
use practical_microservice.Auth.Errors.{PrismaError, unique_violation, record_not_found}
use practical_microservice.Auth.Tables.{AuthUser, RefreshToken, Verification, Tables}
use practical_microservice.Auth.Statement.{
  create_user, update_user, link_profile, create_code, update_code, create_token, update_token,
  user_has, code_has, token_has, hash_has, is_user_id,
}

module _ (t : Tables) where
  pub record IsUserUpdated (id : ℕ) (f : AuthUser → AuthUser)
      (out : Reply PrismaError AuthUser × Tables) : Type 0 where
    pub row : AuthUser
    pub found : find (user_has id) t.users ≡ some row
    pub result : out ≡ (ok (f row), record t { users = update_first (user_has id) f t.users })

  pub update_user-cases :
      (id : ℕ) (f : AuthUser → AuthUser)
      → IsUserUpdated id f (update_user id f t) ⊎ (update_user id f t ≡ (err record_not_found, t))
  unfolding update_user
  update_user-cases id f = elim (Option-cases (find (user_has id) t.users)) [
    | inl e ↦ inr (rw (e, update_user) refl)
    | inr (u, e) ↦ inl (record { row = u; found = e; result = rw (e, update_user) refl })
  ]

  pub create_user-cases :
      (new : AuthUser)
      → (create_user new t ≡ (ok new, record t { users = new ∷ t.users }))
        ⊎ (create_user new t ≡ (err unique_violation, t))
  unfolding create_user
  create_user-cases new =
      elim (Bool-cases (
        any (λ u. (u.id == new.id) || ((u.email == new.email) || (u.username == new.username)))
          t.users)) [ inl e ↦ inr (rw e refl) | inr e ↦ inl (rw e refl) ]

  pub link_profile-cases :
      (id user_id : ℕ) (f : AuthUser → AuthUser)
      → IsUserUpdated id f (link_profile id user_id f t)
        ⊎ ((e : PrismaError) × (link_profile id user_id f t ≡ (err e, t)))
  unfolding link_profile
  link_profile-cases id user_id f =
      elim (Bool-cases (any (λ u. not (u.id == id) && is_user_id user_id u.user_id) t.users)) [
        | inl e ↦ inr (unique_violation, rw (e, link_profile) refl)
        | inr e ↦
            rw (e, link_profile)
              (elim (update_user-cases id f) [ inl h ↦ inl h | inr h ↦ inr (record_not_found, h) ])
      ]

  pub create_code-cases :
      (new : Verification)
      → (create_code new t ≡ (ok new, record t { verifications = new ∷ t.verifications }))
        ⊎ (create_code new t ≡ (err unique_violation, t))
  unfolding create_code
  create_code-cases new = elim (Bool-cases (any (code_has new.id) t.verifications)) [
    | inl e ↦ inr (rw e refl)
    | inr e ↦ inl (rw e refl)
  ]

  pub record IsCodeUpdated (id : ℕ) (test : Verification → Bool) (f : Verification → Verification)
      (out : Reply PrismaError Verification × Tables) : Type 0 where
    pub row : Verification
    pub found : find (code_has id) t.verifications ≡ some row
    pub passed : test row ≡ true
    pub result :
        out
        ≡ (ok (f row), record t { verifications = update_first (code_has id) f t.verifications })

  pub update_code-cases :
      (id : ℕ) (test : Verification → Bool) (f : Verification → Verification)
      → IsCodeUpdated id test f (update_code id test f t)
        ⊎ (update_code id test f t ≡ (err record_not_found, t))
  unfolding update_code
  update_code-cases id test f = elim (Option-cases (find (code_has id) t.verifications)) [
    | inl e ↦ inr (rw (e, update_code) refl)
    | inr (v, e) ↦ elim (Bool-cases (test v)) [
      | inl k ↦
          inl (record { row = v; found = e; passed = k; result = rw (e, k, update_code) refl })
      | inr k ↦ inr (rw (e, k, update_code) refl)
    ]
  ]

  pub record IsTokenCreated (new : RefreshToken) (out : Reply PrismaError RefreshToken × Tables)
      : Type 0 where
    pub fresh : any (token_has new.id) t.tokens ≡ false
    pub unused : any (hash_has new.token_hash) t.tokens ≡ false
    pub result : out ≡ (ok new, record t { tokens = new ∷ t.tokens })

  pub create_token-cases :
      (new : RefreshToken)
      → IsTokenCreated new (create_token new t) ⊎ (create_token new t ≡ (err unique_violation, t))
  unfolding create_token
  create_token-cases new =
      elim (Bool-cases (any (λ r. (r.id == new.id) || (r.token_hash == new.token_hash)) t.tokens)) [
        | inl e ↦ inr (rw e refl)
        | inr e ↦ inl (record {
          fresh = any_left (token_has new.id) (hash_has new.token_hash) t.tokens e;
          unused = any_right (token_has new.id) (hash_has new.token_hash) t.tokens e;
          result = rw e refl;
        })
      ]

  pub record IsTokenUpdated (id : ℕ) (test : RefreshToken → Bool) (f : RefreshToken → RefreshToken)
      (out : Reply PrismaError RefreshToken × Tables) : Type 0 where
    pub row : RefreshToken
    pub found : find (token_has id) t.tokens ≡ some row
    pub passed : test row ≡ true
    pub result : out ≡ (ok (f row), record t { tokens = update_first (token_has id) f t.tokens })

  pub update_token-cases :
      (id : ℕ) (test : RefreshToken → Bool) (f : RefreshToken → RefreshToken)
      → IsTokenUpdated id test f (update_token id test f t)
        ⊎ (update_token id test f t ≡ (err record_not_found, t))
  unfolding update_token
  update_token-cases id test f = elim (Option-cases (find (token_has id) t.tokens)) [
    | inl e ↦ inr (rw (e, update_token) refl)
    | inr (v, e) ↦ elim (Bool-cases (test v)) [
      | inl k ↦
          inl (record { row = v; found = e; passed = k; result = rw (e, k, update_token) refl })
      | inr k ↦ inr (rw (e, k, update_token) refl)
    ]
  ]
