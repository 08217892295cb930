-- ===== src/Cart/Planner/Duplicates.antt =====
-- When `duplicateProductIds` finds nothing.
use practical_microservice.Common.{
  ℕ, ◌≡◌, ◌↔◌, refl, true, false, List, [], ◌∷◌, ◌++◌, ◌==◌, if◌then◌else◌, arith, Bool-cases, inl,
  inr, All,
}
use practical_microservice.Cart.Types.{CartLine}
use practical_microservice.Cart.Planner.{has, duplicates_from, duplicate_product_ids}
use practical_microservice.Cart.Planner.Maps.{has_line, IsUnique}

has-snoc : (p q : ℕ) (xs : List ℕ) → has p (xs ++ q ∷ []) ≡ (if q == p then true else has p xs)
has-snoc p q [] = ground arith
has-snoc p q (x ∷ xs) = ground (arith, has-snoc p q xs)

abbrev AreNew : List ℕ → List CartLine → Type 0
AreNew seen = All (λ x. has x.product_id seen ≡ false)

AreNew-snoc :
    (seen : List ℕ) (q : ℕ) (xs : List CartLine)
    → AreNew (seen ++ q ∷ []) xs ↔ (AreNew seen xs × (has_line q xs ≡ false))
AreNew-snoc seen q [] = ((λ h. (tt, refl)), λ h. tt)
AreNew-snoc seen q (x ∷ xs) = ground (arith, AreNew-snoc seen q xs, has-snoc x.product_id q seen)

snoc-nil : (p : ℕ) (xs : List ℕ) → ¬ (xs ++ p ∷ [] ≡ [])
snoc-nil p [] h = cc
snoc-nil p (x ∷ xs) h = cc

found-nil : (p : ℕ) (xs : List ℕ) → ¬ ((if has p xs then xs else xs ++ p ∷ []) ≡ [])
found-nil p [] h = cc
found-nil p (x ∷ xs) h = ground (arith, snoc-nil p (x ∷ xs))

duplicates_from-nil_iff :
    (seen duplicates : List ℕ) (items : List CartLine)
    → (duplicates_from seen duplicates items ≡ [])
      ↔ ((duplicates ≡ []) × AreNew seen items × IsUnique items)
unfolding duplicates_from
duplicates_from-nil_iff seen duplicates [] = ((λ h. (h, tt, tt)), λ h. h.0)
duplicates_from-nil_iff seen duplicates (line ∷ items) =
    elim (Bool-cases (has line.product_id seen)) [
      | inl again ↦
          let more =
            if has line.product_id duplicates
            then duplicates
            else duplicates ++ line.product_id ∷ [] in
          let (to, from) = duplicates_from-nil_iff seen more items in
          (
            (λ h. absurd (found-nil line.product_id duplicates (to (rw again at h)).0)),
            λ h. ground arith,
          )
      | inr new ↦
          let (to, from) =
            duplicates_from-nil_iff (seen ++ line.product_id ∷ []) duplicates items in
          let (split, join) = AreNew-snoc seen line.product_id items in
          (
            (λ h.
                let (none_yet, fresh, unique) = to (rw new at h) in
                let (unseen, alone) = split fresh in (none_yet, (new, unseen), (alone, unique))),
            λ h.
                let (none_yet, (first, unseen), (alone, unique)) = h in
                rw new (from (none_yet, join (unseen, alone), unique)),
          )
    ]

all-new : (items : List CartLine) → AreNew [] items
all-new [] = tt
all-new (x ∷ items) = (refl, all-new items)

-- A request passes the check for duplicates exactly if it names no product twice.
pub duplicate_product_ids-nil_iff :
    (items : List CartLine) → (duplicate_product_ids items ≡ []) ↔ IsUnique items
unfolding duplicate_product_ids
duplicate_product_ids-nil_iff items =
    let (to, from) = duplicates_from-nil_iff [] [] items in
    ((λ h. (to h).2), λ unique. from (refl, all-new items, unique))
