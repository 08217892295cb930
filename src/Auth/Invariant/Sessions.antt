-- ===== src/Auth/Invariant/Sessions.antt =====
-- What each transaction on refresh tokens does to the live tokens of a family.
use practical_microservice.Common.{
  ℕ, ◌+◌, ◌≤◌, ◌≡◌, refl, Bool, true, false, not, ◌&&◌, List, ◌∷◌, some, ◌==◌, inl, inr, find, any,
  arith, Bool-cases,
}
use practical_microservice.Common.Rows.{
  of_bool, count, update_where, update_first, count-update_first, count-update_where,
  count-filter_le, count-none_of_any,
}
use practical_microservice.Common.Keys.{
  IsKeyed, IsKeyed-update_where, IsKeyed-update_first, IsKeyed-filter,
}
use practical_microservice.Auth.Tables.{RevokeReason, RefreshToken, is_live, is_live_in}
use practical_microservice.Auth.Statement.{revoke, token_has, is_token_in, has_id, delete_ids}
use practical_microservice.Auth.Repository.{rotated_to}

-- At most one token of a family can be presented, and ids are unique.
pub record IsSingle (tokens : List RefreshToken) : Type 0 where
  pub sessions : (family : ℕ) → count (is_live_in family) tokens ≤ 1
  pub keyed : IsKeyed (λ r. r.id) tokens

pub cons-IsSingle :
    (new : RefreshToken) (tokens : List RefreshToken)
    → any (λ r. r.id == new.id) tokens ≡ false
    → any (is_token_in new.family_id) tokens ≡ false
    → IsSingle tokens
    → IsSingle (new ∷ tokens)
cons-IsSingle new tokens fresh alone s = record {
  sessions = λ family. elim (Bool-cases (new.family_id == family)) [
    | inl e ↦
        let none_live =
          count-none_of_any (is_token_in new.family_id) (is_live_in family) tokens alone
            (λ r h. ground arith) in
        ground (arith, none_live)
    | inr e ↦ ground (arith, s.sessions family)
  ];
  keyed = (fresh, s.keyed);
}

pub revoke-IsSingle :
    (test : RefreshToken → Bool) (at : ℕ) (reason : RevokeReason) (tokens : List RefreshToken)
    → IsSingle tokens
    → IsSingle (update_where (λ r. test r && is_live r) (revoke at reason) tokens)
revoke-IsSingle test at reason tokens s = record {
  sessions = λ family. omega (
    arith,
    s.sessions family,
    count-update_where (λ r. test r && is_live r) (is_live_in family) (revoke at reason) tokens
        (λ r h k. ground arith),
  );
  keyed = IsKeyed-update_where (λ r. r.id) _ (revoke at reason) tokens (λ r. refl) s.keyed;
}

-- The successor is one more, its predecessor one less.
rotated_count :
    (family : ℕ) (new old : RefreshToken) (at after before : ℕ)
    → is_live new ≡ true
    → is_live old ≡ true
    → old.family_id ≡ new.family_id
    → before ≤ 1
    → after + of_bool (is_live_in family old)
      ≡ (of_bool (is_live_in family new) + before)
        + of_bool (is_live_in family (rotated_to at new.id old))
    → after ≤ 1
rotated_count family new old at after before lives alive same h e = ground arith

-- A rotation stays in the family of the token that it replaces.
abbrev pub StaysInFamily : ℕ → ℕ → List RefreshToken → Type 0
StaysInFamily current family tokens =
    (r : RefreshToken) → find (token_has current) tokens ≡ some r → r.family_id ≡ family

module _ (new old : RefreshToken) (current : ℕ) (tokens : List RefreshToken)
    (found : find (token_has current) (new ∷ tokens) ≡ some old)
    (stays : StaysInFamily current new.family_id tokens) where
  found_family : old.family_id ≡ new.family_id
  found_family = elim (Bool-cases (token_has current new)) [
    | inl e ↦ ground arith
    | inr e ↦ stays old (ground arith)
  ]

  pub rotate-IsSingle :
      (at : ℕ)
      → any (λ r. r.id == new.id) tokens ≡ false
      → is_live new ≡ true
      → is_live old ≡ true
      → IsSingle tokens
      → IsSingle (update_first (token_has current) (rotated_to at new.id) (new ∷ tokens))
  rotate-IsSingle at fresh lives alive s = record {
    sessions = λ family.
        rotated_count family new old at _ (count (is_live_in family) tokens) lives alive
          found_family (s.sessions family)
          (count-update_first (token_has current) (is_live_in family) (rotated_to at new.id)
            (new ∷ tokens) old found);
    keyed =
        IsKeyed-update_first (λ r. r.id) (token_has current) (rotated_to at new.id) (new ∷ tokens)
          (λ r. refl) (fresh, s.keyed);
  }

pub delete-IsSingle :
    (ids : List ℕ) (tokens : List RefreshToken)
    → IsSingle tokens
    → IsSingle (delete_ids (λ r. r.id) ids tokens)
delete-IsSingle ids tokens s = record {
  sessions = λ family. omega (
    arith,
    s.sessions family,
    count-filter_le (λ r. not (has_id ids r.id)) (is_live_in family) tokens,
  );
  keyed = IsKeyed-filter (λ r. r.id) (λ r. not (has_id ids r.id)) tokens s.keyed;
}
