-- ===== src/Cart/Store/Hash.antt =====
-- The numbers in a cart's hash, as `heldQuantities` reads them back.
use practical_microservice.Common.{
  ℕ, ◌≡◌, refl, Bool, true, false, List, [], ◌∷◌, ◌==◌, if◌then◌else◌, arith, ltb,
}
use practical_microservice.Common.Int.{pos, negsuc}
use practical_microservice.Cart.Types.{CartLine}
use practical_microservice.Cart.Planner.{
  StoredValue, whole, other, Entry, get, has, hold_value, hold_entries, held_quantities,
  insert_line, to_cart_lines,
}
use practical_microservice.Cart.Planner.Maps.{has_line, IsUnique, get-set, set-IsUnique}
use practical_microservice.Cart.Planner.Plan.{target}
use practical_microservice.Cart.Store.{hset, hdel, hset_all, hdel_all}

abbrev pub units : StoredValue → ℕ
units other = 0
units (whole (pos m)) = m
units (whole (negsuc m)) = 0

abbrev pub stored : ℕ → List Entry → ℕ
stored p [] = 0
stored p (x ∷ xs) = if x.product_id == p then units x.raw else stored p xs

abbrev pub has_field : ℕ → List Entry → Bool
has_field p [] = false
has_field p (x ∷ xs) = if x.product_id == p then true else has_field p xs

-- A hash has each field once.
abbrev pub IsHash : List Entry → Type 0
IsHash [] = Unit
IsHash (x ∷ xs) = (has_field x.product_id xs ≡ false) × IsHash xs

stored-absent : (p : ℕ) (xs : List Entry) → has_field p xs ≡ false → stored p xs ≡ 0
stored-absent p [] h = refl
stored-absent p (x ∷ xs) h = ground (arith, stored-absent p xs)

hold_value-IsUnique :
    (p : ℕ) (v : StoredValue) (held : List CartLine)
    → IsUnique held
    → IsUnique (hold_value p v held)
hold_value-IsUnique p other held d = d
hold_value-IsUnique p (whole (negsuc m)) held d = d
hold_value-IsUnique p (whole (pos m)) held d =
    ground (arith, set-IsUnique (record { product_id = p; quantity = m }) held d)

hold_entries-IsUnique :
    (held : List CartLine) (items : List Entry) → IsUnique held → IsUnique (hold_entries held items)
unfolding hold_entries
hold_entries-IsUnique held [] d = d
hold_entries-IsUnique held (x ∷ items) d =
    hold_entries-IsUnique (hold_value x.product_id x.raw held) items
      (hold_value-IsUnique x.product_id x.raw held d)

pub held_quantities-IsUnique : (items : List Entry) → IsUnique (held_quantities items)
unfolding held_quantities
held_quantities-IsUnique items = hold_entries-IsUnique [] items tt

get-hold_value :
    (p q : ℕ) (v : StoredValue) (held : List CartLine)
    → get p (hold_value q v held)
      ≡ (if q == p then (if ltb 0 (units v) then units v else get p held) else get p held)
get-hold_value p q other held = ground arith
get-hold_value p q (whole (negsuc m)) held = ground arith
get-hold_value p q (whole (pos m)) held =
    ground (arith, get-set p (record { product_id = q; quantity = m }) held)

get-hold_entries :
    (p : ℕ) (held : List CartLine) (items : List Entry)
    → IsHash items
    → get p (hold_entries held items)
      ≡ (if ltb 0 (stored p items) then stored p items else get p held)
unfolding hold_entries
get-hold_entries p held [] d = refl
get-hold_entries p held (x ∷ items) d = ground (
  arith,
  get-hold_entries p (hold_value x.product_id x.raw held) items d.1,
  get-hold_value p x.product_id x.raw held,
  stored-absent p items,
)

pub get-held_quantities :
    (p : ℕ) (items : List Entry) → IsHash items → get p (held_quantities items) ≡ stored p items
unfolding held_quantities
get-held_quantities p items d = ground (arith, get-hold_entries p [] items d)

stored-hset :
    (p : ℕ) (line : CartLine) (xs : List Entry)
    → stored p (hset line xs) ≡ (if line.product_id == p then line.quantity else stored p xs)
stored-hset p line [] = ground arith
stored-hset p line (x ∷ xs) = ground (arith, stored-hset p line xs)

has_field-hset :
    (p : ℕ) (line : CartLine) (xs : List Entry)
    → has_field p (hset line xs) ≡ (if line.product_id == p then true else has_field p xs)
has_field-hset p line [] = ground arith
has_field-hset p line (x ∷ xs) = ground (arith, has_field-hset p line xs)

hset-IsHash : (line : CartLine) (xs : List Entry) → IsHash xs → IsHash (hset line xs)
hset-IsHash line [] d = (refl, tt)
hset-IsHash line (x ∷ xs) d =
    ground (arith, hset-IsHash line xs d.1, has_field-hset x.product_id line xs)

stored-hdel :
    (p q : ℕ) (xs : List Entry)
    → IsHash xs
    → stored p (hdel q xs) ≡ (if q == p then 0 else stored p xs)
stored-hdel p q [] d = ground arith
stored-hdel p q (x ∷ xs) d = ground (arith, stored-hdel p q xs d.1, stored-absent p xs)

has_field-hdel :
    (p q : ℕ) (xs : List Entry)
    → IsHash xs
    → has_field p (hdel q xs) ≡ (if q == p then false else has_field p xs)
has_field-hdel p q [] d = ground arith
has_field-hdel p q (x ∷ xs) d = ground (arith, has_field-hdel p q xs d.1)

hdel-IsHash : (q : ℕ) (xs : List Entry) → IsHash xs → IsHash (hdel q xs)
hdel-IsHash q [] d = tt
hdel-IsHash q (x ∷ xs) d =
    ground (arith, hdel-IsHash q xs d.1, has_field-hdel x.product_id q xs d.1)

pub hset_all-IsHash :
    (writes : List CartLine) (xs : List Entry) → IsHash xs → IsHash (hset_all writes xs)
hset_all-IsHash [] xs d = d
hset_all-IsHash (line ∷ writes) xs d = hset_all-IsHash writes (hset line xs) (hset-IsHash line xs d)

pub hdel_all-IsHash :
    (removals : List ℕ) (xs : List Entry) → IsHash xs → IsHash (hdel_all removals xs)
hdel_all-IsHash [] xs d = d
hdel_all-IsHash (q ∷ removals) xs d = hdel_all-IsHash removals (hdel q xs) (hdel-IsHash q xs d)

pub stored-hset_all :
    (p : ℕ) (writes : List CartLine) (xs : List Entry)
    → stored p (hset_all writes xs) ≡ target p (stored p xs) writes
stored-hset_all p [] xs = refl
stored-hset_all p (line ∷ writes) xs =
    ground (arith, stored-hset_all p writes (hset line xs), stored-hset p line xs)

pub stored-hdel_all :
    (p : ℕ) (removals : List ℕ) (xs : List Entry)
    → IsHash xs
    → stored p (hdel_all removals xs) ≡ (if has p removals then 0 else stored p xs)
stored-hdel_all p [] xs d = refl
stored-hdel_all p (q ∷ removals) xs d =
    ground
      (arith, stored-hdel_all p removals (hdel q xs) (hdel-IsHash q xs d), stored-hdel p q xs d)

get-insert_line :
    (p : ℕ) (line : CartLine) (xs : List CartLine)
    → has_line line.product_id xs ≡ false
    → get p (insert_line line xs) ≡ (if line.product_id == p then line.quantity else get p xs)
unfolding insert_line
get-insert_line p line [] h = refl
get-insert_line p line (x ∷ xs) h = ground (arith, get-insert_line p line xs)

has_line-insert_line :
    (p : ℕ) (line : CartLine) (xs : List CartLine)
    → has_line p (insert_line line xs) ≡ (if line.product_id == p then true else has_line p xs)
unfolding insert_line
has_line-insert_line p line [] = refl
has_line-insert_line p line (x ∷ xs) = ground (arith, has_line-insert_line p line xs)

has_line-to_cart_lines :
    (p : ℕ) (xs : List CartLine) → has_line p (to_cart_lines xs) ≡ has_line p xs
unfolding to_cart_lines
has_line-to_cart_lines p [] = refl
has_line-to_cart_lines p (x ∷ xs) =
    ground (arith, has_line-insert_line p x (to_cart_lines xs), has_line-to_cart_lines p xs)

-- Sorting the lines for the answer changes no quantity.
pub get-to_cart_lines :
    (p : ℕ) (xs : List CartLine) → IsUnique xs → get p (to_cart_lines xs) ≡ get p xs
unfolding to_cart_lines
get-to_cart_lines p [] d = refl
get-to_cart_lines p (x ∷ xs) d = ground (
  arith,
  get-insert_line p x (to_cart_lines xs),
  has_line-to_cart_lines x.product_id xs,
  get-to_cart_lines p xs d.1,
)
