-- ===== src/Inventory/Rules.antt =====
-- The stock arithmetic: services/inventory/src/modules/inventory/inventory.rules.ts. Numbers are
-- integers, since the rules test for negative levels.
pub mod Laws
use practical_microservice.Common.{Bool, true, false, [], ◌≡◌, refl, ◌⊎◌, inl, inr}
use practical_microservice.Common.Int.{ℤ, pos, ◌+ℤ◌, ◌-ℤ◌, ltb_ℤ, leb_ℤ}
use practical_microservice.Inventory.Errors.{AppError, conflict_error, unprocessable_entity_error}

-- A rule returns, or throws an error of the domain.
pub data Checked (A : Type 0) : Type 0 where
  returns : A → Checked A
  throws : AppError → Checked A

infixl 5 ◌>>=◌ ◌>>◌
abbrev pub ◌>>=◌ : {A B : Type 0} → Checked A → (A → Checked B) → Checked B
returns a >>= f = f a
throws e >>= f = throws e

abbrev pub ◌>>◌ : {B : Type 0} → Checked (Unit {0}) → Checked B → Checked B
m >> k = m >>= λ _. k

pub Checked-cases :
    {A : Type 0} (c : Checked A) → ((a : A) × (c ≡ returns a)) ⊎ ((e : AppError) × (c ≡ throws e))
Checked-cases (returns a) = inl (a, refl)
Checked-cases (throws e) = inr (e, refl)

-- `if (test) throw e;`
abbrev pub throw_if : Bool → AppError → Checked (Unit {0})
throw_if true e = throws e
throw_if false e = returns tt

pub record StockLevels : Type 0 where
  pub quantity : ℤ
  pub reserved : ℤ

unfoldable pub available_stock : StockLevels → ℤ
available_stock item = item.quantity -ℤ item.reserved

unfoldable pub is_low_stock : StockLevels → ℤ → Bool
unfolding available_stock
is_low_stock item reorder_level = leb_ℤ (available_stock item) reorder_level

unfoldable pub assert_invariants : StockLevels → Checked (Unit {0})
assert_invariants next = do
  throw_if (ltb_ℤ next.quantity (pos 0)) (unprocessable_entity_error [])
  throw_if (ltb_ℤ next.reserved (pos 0)) (unprocessable_entity_error [])
  throw_if (ltb_ℤ next.quantity next.reserved) (conflict_error [])

unfoldable pub plan_reservation : StockLevels → ℤ → Checked StockLevels
unfolding available_stock
plan_reservation item quantity = do
  throw_if (ltb_ℤ (available_stock item) quantity) (conflict_error [])
  returns (record { quantity = item.quantity; reserved = item.reserved +ℤ quantity })

unfoldable pub plan_release : StockLevels → ℤ → Checked StockLevels
plan_release item quantity = do
  throw_if (ltb_ℤ item.reserved quantity) (conflict_error [])
  returns (record { quantity = item.quantity; reserved = item.reserved -ℤ quantity })

unfoldable pub plan_fulfilment : StockLevels → ℤ → Checked StockLevels
plan_fulfilment item quantity = do
  throw_if (ltb_ℤ item.reserved quantity) (conflict_error [])
  returns (record { quantity = item.quantity -ℤ quantity; reserved = item.reserved -ℤ quantity })

unfoldable pub plan_sale : StockLevels → ℤ → Checked StockLevels
unfolding available_stock
plan_sale item quantity = do
  throw_if (ltb_ℤ (available_stock item) quantity) (conflict_error [])
  returns (record { quantity = item.quantity -ℤ quantity; reserved = item.reserved })

unfoldable pub plan_receipt : StockLevels → ℤ → Checked StockLevels
plan_receipt item quantity =
    returns (record { quantity = item.quantity +ℤ quantity; reserved = item.reserved })

unfoldable pub plan_adjustment : StockLevels → ℤ → Checked StockLevels
plan_adjustment item delta = do
  let next : StockLevels = record { quantity = item.quantity +ℤ delta; reserved = item.reserved }
  throw_if (ltb_ℤ next.quantity item.reserved) (conflict_error [])
  returns next
