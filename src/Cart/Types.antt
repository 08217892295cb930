-- ===== src/Cart/Types.antt =====
-- The cart's own types: services/cart/src/cart/cart.types.ts. Product ids, sessions and orders are
-- only compared and sorted, so they are numbers; a UUID is printed with a fixed width.
use practical_microservice.Common.{ℕ, Bool, true, false, ◌&&◌, List, [], ◌∷◌, Option}

-- `CartLine`, and `StockLine` of services/cart/src/inventory/inventory.types.ts.
pub record CartLine : Type 0 where
  pub product_id : ℕ
  pub quantity : ℕ

pub record CartChanges : Type 0 where
  pub writes : List CartLine
  pub removals : List ℕ
  pub reserve : List CartLine
  pub release : List CartLine
  pub size : ℕ

abbrev pub is_empty {ℓ} : {A : Type ℓ} → List A → Bool
is_empty [] = true
is_empty (x ∷ xs) = false

unfoldable pub is_noop : CartChanges → Bool
is_noop changes = is_empty changes.reserve && is_empty changes.release

pub data ReleaseCause : Type 0 where
  expired swept abandoned : ReleaseCause

pub data ReleaseSkip : Type 0 where
  locked empty not_held : ReleaseSkip

pub record ReleaseOutcome : Type 0 where
  pub released : Bool
  pub skipped : Option ReleaseSkip
  pub lines : ℕ

pub record ResolvedSession : Type 0 where
  pub cart_session_id : ℕ
  pub created : Bool

pub record CheckoutResult : Type 0 where
  pub cart_session_id : ℕ
  pub order_id : ℕ
  pub lines : List CartLine
