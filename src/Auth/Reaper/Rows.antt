-- ===== src/Auth/Reaper/Rows.antt =====
-- A bounded delete: the ids of the first rows that pass a test, then the rows with those ids.
use practical_microservice.Common.{
  ℕ, zero, suc, ◌-◌, ◌≡◌, refl, sym, ◌∙◌, ap, Bool, true, false, not, List, [], ◌∷◌, inl, inr,
  filter, any, arith, Bool-cases, if◌then◌else◌,
}
use practical_microservice.Common.Rows.{count, take}
use practical_microservice.Common.Keys.{IsKeyed, IsKeyed-filter, has}
use practical_microservice.Auth.Statement.{has_id, ids_of, delete_ids}

module _ {R : Type 0} where
  filter_hit :
      (p : R → Bool) (r : R) (rs : List R) → p r ≡ true → filter p (r ∷ rs) ≡ r ∷ filter p rs
  filter_hit p r rs h = rw (filter, h) refl

  filter_miss : (p : R → Bool) (r : R) (rs : List R) → p r ≡ false → filter p (r ∷ rs) ≡ filter p rs
  filter_miss p r rs h = rw (filter, h) refl

  -- The rows without the first `limit` that pass.
  abbrev pub remove_first : (R → Bool) → ℕ → List R → List R
  remove_first p limit [] = []
  remove_first p zero (r ∷ rs) = r ∷ rs
  remove_first p (suc n) (r ∷ rs) =
      let gone = remove_first p n rs in
      let kept = remove_first p (suc n) rs in if p r then gone else r ∷ kept

  pub count-remove_first :
      (p : R → Bool) (limit : ℕ) (rs : List R)
      → count p (remove_first p limit rs) ≡ count p rs - limit
  count-remove_first p limit [] = omega arith
  count-remove_first p zero (r ∷ rs) = omega arith
  count-remove_first p (suc n) (r ∷ rs) = elim (Bool-cases (p r)) [
    | inl e ↦ ground (arith, count-remove_first p n rs)
    | inr e ↦ ground (arith, count-remove_first p (suc n) rs)
  ]

  -- Rows that another test keeps apart stay, in their order.
  pub filter-remove_first :
      (p q : R → Bool) (limit : ℕ) (rs : List R)
      → ((r : R) → p r ≡ true → q r ≡ false)
      → filter q (remove_first p limit rs) ≡ filter q rs
  filter-remove_first p q limit [] h = refl
  filter-remove_first p q zero (r ∷ rs) h = refl
  filter-remove_first p q (suc n) (r ∷ rs) h = elim (Bool-cases (p r)) [
    | inl e ↦ rw (e, filter_miss q r rs (h r e)) (filter-remove_first p q n rs h)
    | inr e ↦
        let rest = filter-remove_first p q (suc n) rs h in
        let shown = remove_first p (suc n) rs in
        rw e (elim (Bool-cases (q r)) [
          | inl k ↦ filter_hit q r shown k ∙ ap (λ x. r ∷ x) rest ∙ sym (filter_hit q r rs k)
          | inr k ↦ filter_miss q r shown k ∙ rest ∙ sym (filter_miss q r rs k)
        ])
  ]

module _ {R : Type 0} (id_of : R → ℕ) where
  delete_none : (rs : List R) → delete_ids id_of [] rs ≡ rs
  delete_none [] = refl
  delete_none (r ∷ rs) = ap (λ x. r ∷ x) (delete_none rs)

  delete_skip :
      (n : ℕ) (ids : List ℕ) (rs : List R)
      → any (has id_of n) rs ≡ false
      → delete_ids id_of (n ∷ ids) rs ≡ delete_ids id_of ids rs
  delete_skip n ids [] h = refl
  delete_skip n ids (r ∷ rs) h =
      let rest = delete_skip n ids rs (ground arith) in
      let longer = λ (x : R). not (has_id (n ∷ ids) (id_of x)) in
      let shorter = λ (x : R). not (has_id ids (id_of x)) in
      elim (Bool-cases (has_id ids (id_of r))) [
        | inl e ↦
            filter_miss longer r rs (ground arith)
            ∙ rest
            ∙ sym (filter_miss shorter r rs (ground arith))
        | inr e ↦
            filter_hit longer r rs (ground arith)
            ∙ ap (λ x. r ∷ x) rest
            ∙ sym (filter_hit shorter r rs (ground arith))
      ]

  unnamed :
      (p : R → Bool) (n limit : ℕ) (rs : List R)
      → any (has id_of n) rs ≡ false
      → has_id (ids_of id_of (take limit (filter p rs))) n ≡ false
  unnamed p n zero [] h = refl
  unnamed p n (suc k) [] h = refl
  unnamed p n zero (r ∷ rs) h = refl
  unnamed p n (suc k) (r ∷ rs) h = elim (Bool-cases (p r)) [
    | inl e ↦ rw (filter_hit p r rs e) (ground (arith, unnamed p n k rs))
    | inr e ↦ rw (filter_miss p r rs e) (unnamed p n (suc k) rs (ground arith))
  ]

  pub delete_ids-remove_first :
      (p : R → Bool) (limit : ℕ) (rs : List R)
      → IsKeyed id_of rs
      → delete_ids id_of (ids_of id_of (take limit (filter p rs))) rs ≡ remove_first p limit rs
  delete_ids-remove_first p limit [] h = refl
  delete_ids-remove_first p zero (r ∷ rs) h = delete_none (r ∷ rs)
  delete_ids-remove_first p (suc n) (r ∷ rs) (h, hs) = elim (Bool-cases (p r)) [
    | inl e ↦
        let ids = ids_of id_of (take n (filter p rs)) in
        rw (filter_hit p r rs e, e)
          (filter_miss (λ x. not (has_id (id_of r ∷ ids) (id_of x))) r rs (ground arith)
            ∙ delete_skip (id_of r) ids rs h
            ∙ delete_ids-remove_first p n rs hs)
    | inr e ↦
        let ids = ids_of id_of (take (suc n) (filter p rs)) in
        let other = unnamed p (id_of r) (suc n) rs h in
        rw (filter_miss p r rs e, e)
          (filter_hit (λ x. not (has_id ids (id_of x))) r rs (ground arith)
            ∙ ap (λ x. r ∷ x) (delete_ids-remove_first p (suc n) rs hs))
  ]

  pub IsKeyed-remove_first :
      (p : R → Bool) (limit : ℕ) (rs : List R)
      → IsKeyed id_of rs
      → IsKeyed id_of (remove_first p limit rs)
  IsKeyed-remove_first p limit rs h = rw (← delete_ids-remove_first p limit rs h) (
      IsKeyed-filter id_of (λ r. not (has_id (ids_of id_of (take limit (filter p rs))) (id_of r)))
        rs h)
