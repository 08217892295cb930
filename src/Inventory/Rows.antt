-- ===== src/Inventory/Rows.antt =====
-- Looking rows up by their key, under each write to the table of items.
use practical_microservice.Common.{
  ℕ, ◌≡◌, refl, Bool, false, not, List, [], ◌∷◌, Option, none, some, ◌==◌, if◌then◌else◌, find,
  filter, any, All, arith, inl, inr, Bool-cases, Option-cases,
}
use practical_microservice.Inventory.Tables.{InventoryItem, put}
use practical_microservice.Inventory.Statement.{has_id, contains}
use practical_microservice.Inventory.Repository.{by_product_id}

-- The row that a write leaves behind.
abbrev pub replaced : InventoryItem → Option InventoryItem → Option InventoryItem
replaced new none = none
replaced new (some old) = some new

pub find-put :
    (id : ℕ) (new : InventoryItem) (items : List InventoryItem)
    → find (has_id id) (put new items)
      ≡ (if new.id == id then replaced new (find (has_id id) items) else find (has_id id) items)
find-put id new [] = ground arith
find-put id new (x ∷ items) = ground (arith, find-put id new items)

pub find-filter_ne :
    (id k : ℕ) (items : List InventoryItem)
    → find (has_id id) (filter (λ i. not (has_id k i)) items)
      ≡ (if id == k then none else find (has_id id) items)
find-filter_ne id k [] = ground arith
find-filter_ne id k (x ∷ items) = ground (arith, find-filter_ne id k items)

pub find-none_of_any :
    (id : ℕ) (items : List InventoryItem)
    → any (has_id id) items ≡ false
    → find (has_id id) items ≡ none
find-none_of_any id [] h = refl
find-none_of_any id (x ∷ items) h = ground (arith, find-none_of_any id items)

-- The primary key: no id stands twice.
abbrev pub IsKeyed : List InventoryItem → Type 0
IsKeyed [] = Unit
IsKeyed (x ∷ items) = (find (has_id x.id) items ≡ none) × IsKeyed items

pub put-IsKeyed :
    (new : InventoryItem) (items : List InventoryItem) → IsKeyed items → IsKeyed (put new items)
put-IsKeyed new [] h = tt
put-IsKeyed new (x ∷ items) h = ground (arith, put-IsKeyed new items h.1, find-put x.id new items)

pub filter-IsKeyed :
    (k : ℕ) (items : List InventoryItem)
    → IsKeyed items
    → IsKeyed (filter (λ i. not (has_id k i)) items)
filter-IsKeyed k [] h = tt
filter-IsKeyed k (x ∷ items) h =
    ground (arith, filter-IsKeyed k items h.1, find-filter_ne x.id k items)

module _ (P : InventoryItem → Type 0) where
  pub put-All :
      (new : InventoryItem) (items : List InventoryItem)
      → P new
      → All P items
      → All P (put new items)
  put-All new [] p h = tt
  put-All new (x ∷ items) p h = elim (Bool-cases (x.id == new.id)) [
    | inl e ↦ rw e (p, h.1)
    | inr e ↦ rw e (h.0, put-All new items p h.1)
  ]

  pub filter-All :
      (test : InventoryItem → Bool) (items : List InventoryItem)
      → All P items
      → All P (filter test items)
  filter-All test [] h = tt
  filter-All test (x ∷ items) h = elim (Bool-cases (test x)) [
    | inl e ↦ rw (e, All) (h.0, filter-All test items h.1)
    | inr e ↦ rw (e, All) (filter-All test items h.1)
  ]

  pub find-All :
      (test : InventoryItem → Bool) (items : List InventoryItem) (item : InventoryItem)
      → All P items
      → find test items ≡ some item
      → P item
  find-All test [] item h e = cc
  find-All test (x ∷ items) item h e = elim (Bool-cases (test x)) [
    | inl yes_x ↦ let same : x ≡ item = ground arith in rw same at h.0
    | inr no_x ↦ find-All test items item h.1 (ground arith)
  ]

-- A row of a table is what the table has under its id.
abbrev pub IsRow : List InventoryItem → InventoryItem → Type 0
IsRow items r = find (has_id r.id) items ≡ some r

IsRow-cons :
    (x r : InventoryItem) (items : List InventoryItem)
    → find (has_id x.id) items ≡ none
    → IsRow items r
    → IsRow (x ∷ items) r
IsRow-cons x r items fresh h = ground arith

-- What the batch's map gives for a product is a row of the table for that product.
pub by_product_id-IsRow :
    (products : List ℕ) (items : List InventoryItem) (product : ℕ) (r : InventoryItem)
    → IsKeyed items
    → by_product_id (filter (λ i. contains products i.product_id) items) product ≡ some r
    → IsRow items r × (r.product_id ≡ product)
unfolding by_product_id
by_product_id-IsRow products [] product r h e = cc
by_product_id-IsRow products (x ∷ items) product r h e =
    let rest = filter (λ (i : InventoryItem). contains products i.product_id) items in
    let ih = by_product_id-IsRow products items product in
    elim (Bool-cases (contains products x.product_id)) [
      | inl kept ↦ elim (Option-cases (by_product_id rest product)) [
        | inl alone ↦ ground arith
        | inr (found, later) ↦ ground (arith, ih found h.1 later, IsRow-cons x found items h.0)
      ]
      | inr skipped ↦ ground (arith, ih r h.1, IsRow-cons x r items h.0)
    ]
