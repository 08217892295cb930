-- ===== src/Common/Rows.antt =====
-- The rows of a table: searching, counting and changing them.
use Prim.Native.Nat.{ℕ, zero, suc, ◌+◌, ◌≤◌}
use mathlib.Core.Path.{◌≡◌, refl}
use mathlib.Core.Bool.{Bool, true, false, ◌||◌}
use mathlib.Core.List.{List, [], ◌∷◌}
use mathlib.Core.Option.{none, some}
use mathlib.Core.Logic.{inl, inr}
use native.Mathlib.Omega.{arith}
use practical_microservice.Common.Tests.{if◌then◌else◌, Bool-cases}
use practical_microservice.Common.Lists.{find, filter, any}

abbrev pub of_bool : Bool → ℕ
of_bool b = if b then 1 else 0

module _ {R : Type 0} where
  abbrev pub count : (R → Bool) → List R → ℕ
  count p [] = 0
  count p (r ∷ rs) = of_bool (p r) + count p rs

  -- `updateMany`
  abbrev pub update_where : (R → Bool) → (R → R) → List R → List R
  update_where p f [] = []
  update_where p f (r ∷ rs) = (if p r then f r else r) ∷ update_where p f rs

  -- The row that a unique key names.
  abbrev pub update_first : (R → Bool) → (R → R) → List R → List R
  update_first p f [] = []
  update_first p f (r ∷ rs) = if p r then f r ∷ rs else r ∷ update_first p f rs

  abbrev pub take : ℕ → List R → List R
  take zero rs = []
  take (suc n) [] = []
  take (suc n) (r ∷ rs) = r ∷ take n rs

  pub count-update_first :
      (p q : R → Bool) (f : R → R) (rs : List R) (r : R)
      → find p rs ≡ some r
      → count q (update_first p f rs) + of_bool (q r) ≡ count q rs + of_bool (q (f r))
  count-update_first p q f [] r h = cc
  count-update_first p q f (x ∷ rs) r h = elim (Bool-cases (p x)) [
    | inl hit ↦ ground arith
    | inr miss ↦ ground (arith, count-update_first p q f rs r)
  ]

  -- An update of many rows that `q` does not tell apart.
  pub count-update_where :
      (p q : R → Bool) (f : R → R) (rs : List R)
      → ((r : R) → p r ≡ true → q (f r) ≡ true → q r ≡ true)
      → count q (update_where p f rs) ≤ count q rs
  count-update_where p q f [] h = omega arith
  count-update_where p q f (r ∷ rs) h = ground (arith, count-update_where p q f rs h, h r)

  pub count-update_first_le :
      (p q : R → Bool) (f : R → R) (rs : List R)
      → ((r : R) → q (f r) ≡ true → q r ≡ true)
      → count q (update_first p f rs) ≤ count q rs
  count-update_first_le p q f [] h = omega arith
  count-update_first_le p q f (r ∷ rs) h = ground (arith, count-update_first_le p q f rs h, h r)

  pub count-update_where_none :
      (p q : R → Bool) (f : R → R) (rs : List R)
      → ((r : R) → p r ≡ true → q (f r) ≡ false)
      → ((r : R) → p r ≡ false → q r ≡ false)
      → count q (update_where p f rs) ≡ 0
  count-update_where_none p q f [] k l = refl
  count-update_where_none p q f (r ∷ rs) k l =
      ground (arith, count-update_where_none p q f rs k l, k r, l r)

  pub count-filter_le : (p q : R → Bool) (rs : List R) → count q (filter p rs) ≤ count q rs
  count-filter_le p q [] = omega arith
  count-filter_le p q (r ∷ rs) = ground (arith, count-filter_le p q rs)

  pub find-update_first :
      (p : R → Bool) (f : R → R) (rs : List R) (r : R)
      → find p rs ≡ some r
      → p (f r) ≡ true
      → find p (update_first p f rs) ≡ some (f r)
  find-update_first p f [] r h k = cc
  find-update_first p f (x ∷ rs) r h k = elim (Bool-cases (p x)) [
    | inl hit ↦ ground arith
    | inr miss ↦ ground (arith, find-update_first p f rs r)
  ]

  pub count-none_of_any :
      (p q : R → Bool) (rs : List R)
      → any p rs ≡ false
      → ((r : R) → p r ≡ false → q r ≡ false)
      → count q rs ≡ 0
  count-none_of_any p q [] h k = refl
  count-none_of_any p q (r ∷ rs) h k = ground (arith, count-none_of_any p q rs, k r)

  pub any_left :
      (p q : R → Bool) (rs : List R) → any (λ r. p r || q r) rs ≡ false → any p rs ≡ false
  any_left p q [] h = refl
  any_left p q (r ∷ rs) h = ground (arith, any_left p q rs)

  pub any_right :
      (p q : R → Bool) (rs : List R) → any (λ r. p r || q r) rs ≡ false → any q rs ≡ false
  any_right p q [] h = refl
  any_right p q (r ∷ rs) h = ground (arith, any_right p q rs)

  pub find_holds : (p : R → Bool) (rs : List R) (r : R) → find p rs ≡ some r → p r ≡ true
  find_holds p [] r h = cc
  find_holds p (x ∷ rs) r h = elim (Bool-cases (p x)) [
    | inl hit ↦ ground arith
    | inr miss ↦ ground (arith, find_holds p rs r)
  ]

  -- A row that two tests find, changed through the one and found by the other.
  pub find-update_same :
      (p q : R → Bool) (f : R → R) (rs : List R) (r : R)
      → find p rs ≡ some r
      → find q rs ≡ some r
      → p (f r) ≡ true
      → find p (update_first q f rs) ≡ some (f r)
  find-update_same p q f [] r h k l = cc
  find-update_same p q f (x ∷ rs) r h k l = elim (Bool-cases (p x)) [
    | inl hit ↦ ground (arith, find_holds q rs r)
    | inr miss ↦ ground (arith, find_holds p rs r, find-update_same p q f rs r)
  ]

  pub find-none_of_count : (p : R → Bool) (rs : List R) → count p rs ≡ 0 → find p rs ≡ none
  find-none_of_count p [] h = refl
  find-none_of_count p (r ∷ rs) h = elim (Bool-cases (p r)) [
    | inl hit ↦ absurd (ground arith)
    | inr miss ↦ ground (arith, find-none_of_count p rs)
  ]

  -- A row that an update of many passes over.
  pub find-update_where :
      (p q : R → Bool) (f : R → R) (rs : List R) (r : R)
      → ((x : R) → p (f x) ≡ p x)
      → q r ≡ false
      → find p rs ≡ some r
      → find p (update_where q f rs) ≡ some r
  find-update_where p q f [] r h k l = cc
  find-update_where p q f (x ∷ rs) r h k l = elim (Bool-cases (p x)) [
    | inl hit ↦ ground arith
    | inr miss ↦ ground (arith, h x, find-update_where p q f rs r h k)
  ]
