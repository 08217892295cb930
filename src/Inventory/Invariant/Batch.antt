-- ===== src/Inventory/Invariant/Batch.antt =====
-- The invariant under a bulk transition.
use practical_microservice.Common.{
  ℕ, ◌≡◌, refl, List, [], ◌∷◌, ◌++◌, map, Option, none, some, find, All, All-mono, arith, inl, inr,
  Option-cases, Bool-cases,
}
use practical_microservice.Inventory.Tables.{InventoryItem, StockMovementHistory, Tables, put}
use practical_microservice.Inventory.Statement.{has_id}
use practical_microservice.Inventory.Repository.{Target}
use practical_microservice.Inventory.Repository.Targets.{
  aims_at, IsDistinct, AreRows, row_after, ledger_row, put_all, find-put_all,
}
use practical_microservice.Inventory.Rows.{IsKeyed, IsRow, put-IsKeyed, put-All}
use practical_microservice.Inventory.Invariant.Defs.{IsSoundItem, rows_of, IsLedgered, IsConsistent}
use practical_microservice.Inventory.Invariant.Writes.{IsFair}
use practical_microservice.Inventory.Service.Bulk.Exact.{written}

rows_of-append :
    (k : ℕ) (xs ys : List StockMovementHistory)
    → rows_of k (xs ++ ys) ≡ rows_of k xs ++ rows_of k ys
rows_of-append k [] ys = refl
rows_of-append k (x ∷ xs) ys = ground (arith, rows_of-append k xs ys)

abbrev row_for : Option Target → List StockMovementHistory
row_for none = []
row_for (some x) = ledger_row x ∷ []

-- Distinct targets leave one ledger row for each of their items.
rows_of-targets :
    (k : ℕ) (targets : List Target)
    → IsDistinct targets
    → rows_of k (map ledger_row targets) ≡ row_for (find (aims_at k) targets)
rows_of-targets k [] d = refl
rows_of-targets k (x ∷ targets) d = ground (arith, rows_of-targets k targets d.1)

pub rows_of-written :
    (k : ℕ) (targets : List Target) (ms : List StockMovementHistory)
    → IsDistinct targets
    → rows_of k (map ledger_row targets ++ ms) ≡ row_for (find (aims_at k) targets) ++ rows_of k ms
rows_of-written k targets ms d =
    rw (rows_of-append k (map ledger_row targets) ms, rows_of-targets k targets d)

put_all-IsKeyed :
    (targets : List Target) (items : List InventoryItem)
    → IsKeyed items
    → IsKeyed (put_all targets items)
put_all-IsKeyed [] items h = h
put_all-IsKeyed (x ∷ targets) items h =
    put_all-IsKeyed targets (put (row_after x) items) (put-IsKeyed (row_after x) items h)

put_all-All :
    (P : InventoryItem → Type 0) (targets : List Target) (items : List InventoryItem)
    → All (λ x. P (row_after x)) targets
    → All P items
    → All P (put_all targets items)
put_all-All P [] items h k = k
put_all-All P (x ∷ targets) items h k =
    put_all-All P targets (put (row_after x) items) h.1 (put-All P (row_after x) items h.0 k)

abbrev pub IsFairTarget : Target → Type 0
IsFairTarget x = IsFair x.item.quantity x.next.next x.next.movement

All-find :
    (P : Target → Type 0) (k : ℕ) (targets : List Target) (x : Target)
    → All P targets
    → find (aims_at k) targets ≡ some x
    → P x × (x.item.id ≡ k)
All-find P k [] x h e = cc
All-find P k (y ∷ targets) x h e = elim (Bool-cases (aims_at k y)) [
  | inl hit ↦ let same : y ≡ x = ground arith in (rw same at h.0, ground arith)
  | inr miss ↦ All-find P k targets x h.1 (ground arith)
]

module _ (targets : List Target) (t : Tables) (d : IsDistinct targets)
    (rows : AreRows t.items targets) (fair : All IsFairTarget targets) where
  written-IsLedgered :
      (k : ℕ)
      → IsLedgered (find (has_id k) t.items) (rows_of k t.movements)
      → IsLedgered
          (find (has_id k) (put_all targets t.items))
          (rows_of k (map ledger_row targets ++ t.movements))
  written-IsLedgered k h =
      rw (find-put_all k targets t.items d rows, rows_of-written k targets t.movements d)
        (elim (Option-cases (find (aims_at k) targets)) [
          | inl e ↦ rw e h
          | inr (x, e) ↦
              let (row, own) = All-find (λ x. IsRow t.items x.item) k targets x rows e in
              let found : find (has_id k) t.items ≡ some x.item = simp own at row in
              rw e ((All-find IsFairTarget k targets x fair e).0.1, rw found at h)
        ])

  pub written-IsConsistent : IsConsistent t → IsConsistent (written targets t)
  written-IsConsistent c = record {
    keyed = put_all-IsKeyed targets t.items c.keyed;
    sound =
        put_all-All IsSoundItem targets t.items
          (All-mono IsFairTarget (λ x. IsSoundItem (row_after x)) (λ x f. f.0) targets fair)
          c.sound;
    ledger = λ k. written-IsLedgered k (c.ledger k);
  }
