-- ===== src/Inventory/Invariant/Keeps.antt =====
-- The invariant under each method of the repository.
use practical_microservice.Common.{
  ℕ, ◌≡◌, refl, sym, ◌⊎◌, List, [], ◌∷◌, Option, some, String, find, any, arith, inl, inr,
  Bool-cases, Option-cases,
}
use practical_microservice.Common.Int.{ℤ, pos, ◌-ℤ◌, ◌+ℤ◌, ◌==ℤ◌, abs, int_laws, ltb_ℤ}
use practical_microservice.Inventory.Rules.{Checked, returns, Checked-cases}
use practical_microservice.Inventory.Tables.{InventoryItem, FieldChange, Tables}
use practical_microservice.Inventory.Transaction.{Action}
use practical_microservice.Inventory.Statement.{has_id, clashes}
use practical_microservice.Inventory.Database.{memory}
use practical_microservice.Inventory.Repository.{
  StockChangePlan, movement_row, patch_movement, update, apply_stock_change,
}
use practical_microservice.Inventory.Repository.Diff.{
  UpdateInventoryItemInput, patch_item, diff_inventory_item,
}
use practical_microservice.Inventory.Repository.StockChange.{
  on_found, id-find, apply_stock_change-eq,
}
use practical_microservice.Inventory.Repository.Update.{patched, saved, update-eq}
use practical_microservice.Inventory.Rows.{IsRow, put-IsKeyed, put-All, find-All}
use practical_microservice.Inventory.Invariant.Defs.{IsSoundItem, rows_of, IsLedgered, IsConsistent}
use practical_microservice.Inventory.Invariant.Writes.{
  IsFair, put_kept, put_moved, changed-IsConsistent,
}

-- Whether it returns or throws, the action leaves consistent tables.
pub record Keeps {A : Type 0} (m : Action A) : Type 0 where
  pub at : (t : Tables) → IsConsistent t → IsConsistent (m t).1

pub on_found_cases :
    (P : Tables → Type 0) (id : ℕ) (t : Tables) (f : InventoryItem → Action InventoryItem)
    → P t
    → ((item : InventoryItem) → find (has_id id) t.items ≡ some item → P (f item t).1)
    → P (on_found (find (has_id id) t.items) f t).1
on_found_cases P id t f h k = elim (Option-cases (find (has_id id) t.items)) [
  | inl e ↦ rw e h
  | inr (item, e) ↦ rw e (k item e)
]

pub IsRow-of_find :
    (id : ℕ) (items : List InventoryItem) (item : InventoryItem)
    → find (has_id id) items ≡ some item
    → IsRow items item
IsRow-of_find id items item e = simp (id-find id items item e) e

-- A planner whose every plan is fair.
abbrev pub PlansFairly : (InventoryItem → Checked StockChangePlan) → Type 0
PlansFairly plan =
    (item : InventoryItem) (p : StockChangePlan)
    → plan item ≡ returns p
    → IsFair item.quantity p.next p.movement

pub apply_stock_change-Keeps :
    (id : ℕ) (plan : InventoryItem → Checked StockChangePlan)
    → PlansFairly plan
    → Keeps (apply_stock_change memory id plan)
apply_stock_change-Keeps id plan fair = record {
  at = λ t c. rw (apply_stock_change-eq id plan t) (
      on_found_cases IsConsistent id t _ c λ item e. elim (Checked-cases (plan item)) [
        | inl (p, q) ↦
            rw q (changed-IsConsistent t item p (IsRow-of_find id t.items item e) (fair item p q) c)
        | inr (error, q) ↦ rw q c
      ]);
}

-- The size of a change explains it as an adjustment.
abs_explains :
    (last next : ℤ) → (next ≡ last +ℤ abs (next -ℤ last)) ⊎ (next ≡ last -ℤ abs (next -ℤ last))
unfolding abs
abs_explains last next = elim (Bool-cases (ltb_ℤ (next -ℤ last) (pos 0))) [
  | inl e ↦ rw e (inr (omega int_laws))
  | inr e ↦ rw e (inl (omega int_laws))
]

module _ (id : ℕ) (input : UpdateInventoryItemInput) (actor : Option String) (t : Tables)
    (current : InventoryItem) (found : find (has_id id) t.items ≡ some current) where
  patched-IsLedgered :
      (changes : List FieldChange) (k : ℕ)
      → IsLedgered (find (has_id k) t.items) (rows_of k t.movements)
      → IsLedgered
          (find (has_id k) (patched id input actor current changes t).items)
          (rows_of k (patched id input actor current changes t).movements)
  patched-IsLedgered changes k h =
      let new = patch_item input current in
      let row = IsRow-of_find id t.items current found in
      let own = id-find id t.items current found in
      elim (Bool-cases (new.quantity ==ℤ current.quantity)) [
        | inl e ↦ rw e (put_kept t.items t.movements current new row refl (ground arith) k h)
        | inr e ↦ rw e (
            put_moved t.items t.movements current new row refl
              (movement_row id current.quantity (patch_movement actor new current)) (sym own) refl
              (abs_explains current.quantity new.quantity) k h)
      ]

  patched-IsConsistent :
      (changes : List FieldChange)
      → IsSoundItem (patch_item input current)
      → IsConsistent t
      → IsConsistent (patched id input actor current changes t)
  patched-IsConsistent changes sound c = record {
    keyed = put-IsKeyed (patch_item input current) t.items c.keyed;
    sound = put-All IsSoundItem (patch_item input current) t.items sound c.sound;
    ledger = λ k. patched-IsLedgered changes k (c.ledger k);
  }

-- A validator that lets through only patches which leave the row sound.
abbrev pub GuardsPatch : UpdateInventoryItemInput → (InventoryItem → Checked (Unit {0})) → Type 0
GuardsPatch input validate =
    (item : InventoryItem)
    → IsSoundItem item
    → validate item ≡ returns tt
    → IsSoundItem (patch_item input item)

saved-IsConsistent :
    (id : ℕ) (input : UpdateInventoryItemInput) (actor : Option String) (t : Tables)
    (current : InventoryItem) (changes : List FieldChange)
    → find (has_id id) t.items ≡ some current
    → IsSoundItem (patch_item input current)
    → IsConsistent t
    → IsConsistent (saved id input actor current changes t).1
saved-IsConsistent id input actor t current [] found sound c = c
saved-IsConsistent id input actor t current (change ∷ changes) found sound c =
    elim (Bool-cases (any (clashes (patch_item input current)) t.items)) [
      | inl e ↦ rw e c
      | inr e ↦
          rw e (patched-IsConsistent id input actor t current found (change ∷ changes) sound c)
    ]

pub update-Keeps :
    (id : ℕ) (input : UpdateInventoryItemInput) (actor : Option String)
    (validate : InventoryItem → Checked (Unit {0}))
    → GuardsPatch input validate
    → Keeps (update memory id input actor validate)
update-Keeps id input actor validate guards = record {
  at = λ t c. rw (update-eq id input actor validate t) (
      on_found_cases IsConsistent id t _ c λ item e. elim (Checked-cases (validate item)) [
        | inl (checked, q) ↦ rw q (
            saved-IsConsistent id input actor t item (diff_inventory_item item input) e
              (guards item (find-All IsSoundItem (has_id id) t.items item c.sound e) q) c)
        | inr (error, q) ↦ rw q c
      ]);
}
