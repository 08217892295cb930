-- ===== src/Inventory/Rules/Laws.antt =====
-- What the stock rules promise: services/inventory/src/modules/inventory/inventory.rules.ts.
use practical_microservice.Common.{◌≡◌, ◌↔◌, arith}
use practical_microservice.Common.Int.{ℤ, pos, ◌+ℤ◌, ◌-ℤ◌, ◌≤ℤ◌, +ℤ_parts, -ℤ_parts, add_sub_cancel}
use practical_microservice.Inventory.Rules.{
  Checked, returns, StockLevels, available_stock, assert_invariants, plan_reservation, plan_release,
  plan_fulfilment, plan_sale, plan_receipt, plan_adjustment,
}

-- Nothing is negative, and no unit is promised that is not on hand.
abbrev pub IsSound : StockLevels → Type 0
IsSound l = (pos 0 ≤ℤ l.reserved) × (l.reserved ≤ℤ l.quantity)

-- `assertInvariants` returns exactly for sound levels.
pub assert_invariants_iff : (l : StockLevels) → (assert_invariants l ≡ returns tt) ↔ IsSound l
unfolding assert_invariants
assert_invariants_iff l = ground arith

-- On sound levels a reservation is allowed exactly up to what is available, and adds to what is
-- reserved alone; the result is sound again for a quantity that is not negative.
pub plan_reservation_iff :
    (l : StockLevels) (quantity : ℤ) (next : StockLevels)
    → (plan_reservation l quantity ≡ returns next) ↔ (
        (quantity ≤ℤ available_stock l)
        × (next ≡ record { quantity = l.quantity; reserved = l.reserved +ℤ quantity }))
unfolding plan_reservation
plan_reservation_iff l quantity next = ground arith

-- Reserving and then releasing the same units gives the levels back.
pub plan_release-plan_reservation :
    (l : StockLevels) (quantity : ℤ) (held : StockLevels)
    → IsSound l
    → plan_reservation l quantity ≡ returns held
    → plan_release held quantity ≡ returns l
unfolding plan_reservation plan_release
plan_release-plan_reservation l quantity held sound h =
    ground (arith, add_sub_cancel l.reserved quantity, +ℤ_parts l.reserved quantity)

-- Reserving and then fulfilling comes to the same levels as a sale.
pub plan_fulfilment-plan_reservation :
    (l : StockLevels) (quantity : ℤ) (held : StockLevels)
    → IsSound l
    → plan_reservation l quantity ≡ returns held
    → plan_fulfilment held quantity ≡ plan_sale l quantity
unfolding plan_reservation plan_fulfilment plan_sale
plan_fulfilment-plan_reservation l quantity held sound h = ground (
  arith,
  add_sub_cancel l.reserved quantity,
  +ℤ_parts l.reserved quantity,
  -ℤ_parts l.quantity l.reserved,
)

-- How a rule, where it returns, moves the on-hand quantity by what the ledger will say.
abbrev pub Sets : (StockLevels → ℤ → Checked StockLevels) → (ℤ → ℤ → ℤ) → Type 0
Sets plan f =
    (l : StockLevels) (quantity : ℤ) (next : StockLevels)
    → plan l quantity ≡ returns next
    → next.quantity ≡ f l.quantity quantity

pub plan_reservation-Sets : Sets plan_reservation (λ q _. q)
unfolding plan_reservation
plan_reservation-Sets l quantity next h = ground arith

pub plan_release-Sets : Sets plan_release (λ q _. q)
unfolding plan_release
plan_release-Sets l quantity next h = ground arith

pub plan_fulfilment-Sets : Sets plan_fulfilment ◌-ℤ◌
unfolding plan_fulfilment
plan_fulfilment-Sets l quantity next h = ground arith

pub plan_sale-Sets : Sets plan_sale ◌-ℤ◌
unfolding plan_sale
plan_sale-Sets l quantity next h = ground arith

pub plan_receipt-Sets : Sets plan_receipt ◌+ℤ◌
unfolding plan_receipt
plan_receipt-Sets l quantity next h = ground arith

pub plan_adjustment-Sets : Sets plan_adjustment ◌+ℤ◌
unfolding plan_adjustment
plan_adjustment-Sets l quantity next h = ground arith
