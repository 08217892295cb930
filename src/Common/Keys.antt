-- ===== src/Common/Keys.antt =====
-- Tables whose rows have unique ids.
use Prim.Native.Nat.{ℕ}
use mathlib.Core.Path.{◌≡◌, refl}
use mathlib.Core.Bool.{Bool, false}
use mathlib.Core.List.{List, [], ◌∷◌}
use mathlib.Core.Option.{some}
use mathlib.Core.Logic.{inl, inr}
use native.Mathlib.Omega.{arith}
use practical_microservice.Common.Tests.{◌==◌, Bool-cases}
use practical_microservice.Common.Lists.{any, find, filter}
use practical_microservice.Common.Rows.{update_where, update_first}

module _ {R : Type 0} (id_of : R → ℕ) where
  abbrev pub has : ℕ → R → Bool
  has n r = id_of r == n

  -- No two rows have the same id.
  abbrev pub IsKeyed : List R → Type 0
  IsKeyed [] = Unit {0}
  IsKeyed (r ∷ rs) = (any (has (id_of r)) rs ≡ false) × IsKeyed rs

  pub has_not :
      (p : R → Bool) (n : ℕ) (rs : List R) (r : R)
      → any (has n) rs ≡ false
      → find p rs ≡ some r
      → has n r ≡ false
  has_not p n [] r h k = cc
  has_not p n (x ∷ rs) r h k = ground (arith, has_not p n rs r)

  pub find_id :
      (p : R → Bool) (rs : List R) (r : R)
      → IsKeyed rs
      → find p rs ≡ some r
      → find (has (id_of r)) rs ≡ some r
  find_id p [] r h k = cc
  find_id p (x ∷ rs) r (h, hs) k = elim (Bool-cases (p x)) [
    | inl hit ↦ ground arith
    | inr miss ↦ ground (arith, find_id p rs r hs, has_not p (id_of x) rs r h)
  ]

  pub any-update_where :
      (p : R → Bool) (f : R → R) (n : ℕ) (rs : List R)
      → ((r : R) → id_of (f r) ≡ id_of r)
      → any (has n) (update_where p f rs) ≡ any (has n) rs
  any-update_where p f n [] h = refl
  any-update_where p f n (r ∷ rs) h = ground (arith, any-update_where p f n rs h, h r)

  pub IsKeyed-update_where :
      (p : R → Bool) (f : R → R) (rs : List R)
      → ((r : R) → id_of (f r) ≡ id_of r)
      → IsKeyed rs
      → IsKeyed (update_where p f rs)
  IsKeyed-update_where p f [] h k = tt
  IsKeyed-update_where p f (r ∷ rs) h (k, ks) =
      let rest = IsKeyed-update_where p f rs h ks in
      (
        elim (Bool-cases (p r)) [
          | inl e ↦ rw (e, h r, any-update_where p f (id_of r) rs h) k
          | inr e ↦ rw (e, any-update_where p f (id_of r) rs h) k
        ],
        rest,
      )

  any-update_first :
      (p : R → Bool) (f : R → R) (n : ℕ) (rs : List R)
      → ((r : R) → id_of (f r) ≡ id_of r)
      → any (has n) (update_first p f rs) ≡ any (has n) rs
  any-update_first p f n [] h = refl
  any-update_first p f n (r ∷ rs) h = ground (arith, any-update_first p f n rs h, h r)

  pub IsKeyed-update_first :
      (p : R → Bool) (f : R → R) (rs : List R)
      → ((r : R) → id_of (f r) ≡ id_of r)
      → IsKeyed rs
      → IsKeyed (update_first p f rs)
  IsKeyed-update_first p f [] h k = tt
  IsKeyed-update_first p f (r ∷ rs) h (k, ks) =
      let rest = IsKeyed-update_first p f rs h ks in
      elim (Bool-cases (p r)) [
        | inl e ↦ rw (e, h r) (k, ks)
        | inr e ↦ rw (e, any-update_first p f (id_of r) rs h) (k, rest)
      ]

  any-filter :
      (p : R → Bool) (n : ℕ) (rs : List R)
      → any (has n) rs ≡ false
      → any (has n) (filter p rs) ≡ false
  any-filter p n [] h = refl
  any-filter p n (r ∷ rs) h = ground (arith, any-filter p n rs)

  pub IsKeyed-filter : (p : R → Bool) (rs : List R) → IsKeyed rs → IsKeyed (filter p rs)
  IsKeyed-filter p [] k = tt
  IsKeyed-filter p (r ∷ rs) (k, ks) =
      let rest = IsKeyed-filter p rs ks in
      elim (Bool-cases (p r)) [
        | inl e ↦ rw (e, IsKeyed) (any-filter p (id_of r) rs k, rest)
        | inr e ↦ rw (e, IsKeyed) rest
      ]
