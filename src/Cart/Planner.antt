-- ===== src/Cart/Planner.antt =====
-- The cart's arithmetic: services/cart/src/cart/cart.planner.ts. A `Map` is the list of its
-- entries in insertion order.
pub mod Maps
pub mod Plan
pub mod Duplicates
use practical_microservice.Common.{
  ℕ, suc, ◌-◌, Bool, true, false, ltb, leb, not, List, [], ◌∷◌, ◌==◌, ◌||◌, ◌++◌, if◌then◌else◌,
  length, map,
}
use practical_microservice.Common.Int.{ℤ, pos, negsuc}
use practical_microservice.Cart.Types.{CartLine, CartChanges}

-- What `Number(raw)` makes of a stored text: a whole number, or something else (NaN, a fraction).
pub data StoredValue : Type 0 where
  whole : ℤ → StoredValue
  other : StoredValue

pub record Entry : Type 0 where
  pub product_id : ℕ
  pub raw : StoredValue

-- `map.get(productId) ?? 0`
abbrev pub get : ℕ → List CartLine → ℕ
get p [] = 0
get p (x ∷ xs) = if x.product_id == p then x.quantity else get p xs

-- `map.set`: the place of an entry that is there, or a new last one.
abbrev pub set : CartLine → List CartLine → List CartLine
set line [] = line ∷ []
set line (x ∷ xs) = if x.product_id == line.product_id then line ∷ xs else x ∷ set line xs

-- `map.delete`
abbrev pub delete : ℕ → List CartLine → List CartLine
delete p [] = []
delete p (x ∷ xs) = if x.product_id == p then xs else x ∷ delete p xs

-- One round of the loop of `heldQuantities`.
abbrev pub hold_value : ℕ → StoredValue → List CartLine → List CartLine
hold_value p other held = held
hold_value p (whole (negsuc m)) held = held
hold_value p (whole (pos m)) held =
    if ltb 0 m then set (record { product_id = p; quantity = m }) held else held

unfoldable pub hold_entries : List CartLine → List Entry → List CartLine
hold_entries held [] = held
hold_entries held (entry ∷ entries) =
    hold_entries (hold_value entry.product_id entry.raw held) entries

unfoldable pub held_quantities : List Entry → List CartLine
unfolding hold_entries
held_quantities = hold_entries []

-- `sort((a, b) => a.productId.localeCompare(b.productId))`
unfoldable pub insert_line : CartLine → List CartLine → List CartLine
insert_line line [] = line ∷ []
insert_line line (x ∷ xs) =
    if ltb x.product_id line.product_id then x ∷ insert_line line xs else line ∷ x ∷ xs

unfoldable pub to_cart_lines : List CartLine → List CartLine
unfolding insert_line
to_cart_lines [] = []
to_cart_lines (line ∷ held) = insert_line line (to_cart_lines held)

abbrev pub no_changes : List CartLine → CartChanges
no_changes settled = record {
  writes = [];
  removals = [];
  reserve = [];
  release = [];
  size = length settled;
}

-- What one round of the loop does to `settled`.
unfoldable pub settle_line : List CartLine → CartLine → List CartLine
settle_line settled line =
    if line.quantity == get line.product_id settled
    then settled
    else if line.quantity == 0
    then delete line.product_id settled
    else set line settled

-- What one round pushes, in front of what the later rounds push.
unfoldable pub push_line : ℕ → CartLine → CartChanges → CartChanges
push_line before line rest = if line.quantity == before then rest else record {
  writes = if line.quantity == 0 then rest.writes else line ∷ rest.writes;
  removals = if line.quantity == 0 then line.product_id ∷ rest.removals else rest.removals;
  reserve =
      if ltb before line.quantity
      then record { product_id = line.product_id; quantity = line.quantity - before } ∷ rest.reserve
      else rest.reserve;
  release =
      if ltb before line.quantity
      then rest.release
      else record { product_id = line.product_id; quantity = before - line.quantity }
        ∷ rest.release;
  size = rest.size;
}

-- The loop of `planChanges` from where `settled` stands.
unfoldable pub plan_changes : List CartLine → List CartLine → CartChanges
unfolding settle_line push_line
plan_changes settled [] = no_changes settled
plan_changes settled (line ∷ requested) =
    let rest = plan_changes (settle_line settled line) requested in
    push_line (get line.product_id settled) line rest

abbrev pub has : ℕ → List ℕ → Bool
has p [] = false
has p (q ∷ qs) = p == q || has p qs

-- The loop of `duplicateProductIds`; a `Set` is the list of its members in insertion order.
unfoldable pub duplicates_from : List ℕ → List ℕ → List CartLine → List ℕ
duplicates_from seen duplicates [] = duplicates
duplicates_from seen duplicates (line ∷ items) =
    let p = line.product_id in
    duplicates_from (if has p seen then seen else seen ++ p ∷ [])
      (if has p seen
        then (if has p duplicates then duplicates else duplicates ++ p ∷ [])
        else duplicates)
      items

unfoldable pub duplicate_product_ids : List CartLine → List ℕ
unfolding duplicates_from
duplicate_product_ids = duplicates_from [] []

-- `MAX_BULK_LINES` of services/cart/src/inventory/inventory.types.ts
abbrev pub max_bulk_lines : ℕ
max_bulk_lines = 50

unfoldable pub exceeds_bulk_limit : CartChanges → Bool
exceeds_bulk_limit changes = ltb max_bulk_lines changes.size
