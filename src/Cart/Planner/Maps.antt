-- ===== src/Cart/Planner/Maps.antt =====
-- The entries of a `Map` after `set` and `delete`.
use practical_microservice.Common.{
  ℕ, ◌≡◌, refl, Bool, true, false, List, [], ◌∷◌, ◌==◌, if◌then◌else◌, arith,
}
use practical_microservice.Cart.Types.{CartLine}
use practical_microservice.Cart.Planner.{get, set, delete}

abbrev pub has_line : ℕ → List CartLine → Bool
has_line p [] = false
has_line p (x ∷ xs) = if x.product_id == p then true else has_line p xs

-- No product stands twice.
abbrev pub IsUnique : List CartLine → Type 0
IsUnique [] = Unit
IsUnique (x ∷ xs) = (has_line x.product_id xs ≡ false) × IsUnique xs

pub get-set :
    (p : ℕ) (line : CartLine) (xs : List CartLine)
    → get p (set line xs) ≡ (if line.product_id == p then line.quantity else get p xs)
get-set p line [] = ground arith
get-set p line (x ∷ xs) = ground (arith, get-set p line xs)

pub get-absent : (p : ℕ) (xs : List CartLine) → has_line p xs ≡ false → get p xs ≡ 0
get-absent p [] h = refl
get-absent p (x ∷ xs) h = ground (arith, get-absent p xs)

pub get-delete :
    (p q : ℕ) (xs : List CartLine)
    → IsUnique xs
    → get p (delete q xs) ≡ (if q == p then 0 else get p xs)
get-delete p q [] d = ground arith
get-delete p q (x ∷ xs) d = ground (arith, get-delete p q xs d.1, get-absent p xs)

pub has_line-set :
    (p : ℕ) (line : CartLine) (xs : List CartLine)
    → has_line p (set line xs) ≡ (if line.product_id == p then true else has_line p xs)
has_line-set p line [] = ground arith
has_line-set p line (x ∷ xs) = ground (arith, has_line-set p line xs)

pub has_line-delete :
    (p q : ℕ) (xs : List CartLine)
    → IsUnique xs
    → has_line p (delete q xs) ≡ (if q == p then false else has_line p xs)
has_line-delete p q [] d = ground arith
has_line-delete p q (x ∷ xs) d = ground (arith, has_line-delete p q xs d.1)

pub set-IsUnique : (line : CartLine) (xs : List CartLine) → IsUnique xs → IsUnique (set line xs)
set-IsUnique line [] d = (refl, tt)
set-IsUnique line (x ∷ xs) d =
    ground (arith, set-IsUnique line xs d.1, has_line-set x.product_id line xs)

pub delete-IsUnique : (q : ℕ) (xs : List CartLine) → IsUnique xs → IsUnique (delete q xs)
delete-IsUnique q [] d = tt
delete-IsUnique q (x ∷ xs) d =
    ground (arith, delete-IsUnique q xs d.1, has_line-delete x.product_id q xs d.1)
