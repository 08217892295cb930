-- ===== src/Cart/Tests.antt =====
-- The cart theorems at a concrete cart, over a backend in memory that refuses nothing but a
-- release of more than is reserved under the reference.
use practical_microservice.Common.{
  ℕ, ◌-◌, ◌⊎◌, ◌≡◌, ◌↔◌, inl, inr, refl, Bool, true, Bool-cases, leb, ◌&&◌, List, [], ◌∷◌, none,
  some, arith, ◌==◌, if◌then◌else◌,
}
use practical_microservice.Common.Int.{pos}
use practical_microservice.Cart.Types.{CartLine}
use practical_microservice.Cart.Planner.{
  get, whole, no_changes, plan_changes, duplicate_product_ids,
}
use practical_microservice.Cart.Planner.Maps.{IsUnique}
use practical_microservice.Cart.Planner.Plan.{
  total, target, settle_all, plan_changes-difference, plan_changes-settle_all,
}
use practical_microservice.Cart.Planner.Duplicates.{duplicate_product_ids-nil_iff}
use practical_microservice.Cart.Calls.{
  World, ok, err, insufficient_stock, Backend, Call, with_units, Refuses,
}
use practical_microservice.Cart.Repository.{Settings}
use practical_microservice.Cart.Service.{set_lines}
use practical_microservice.Cart.Service.Update.{InSync, IsUpdate}
use practical_microservice.Cart.Service.Request.{set_lines-IsUpdate}
use practical_microservice.Cart.Service.Checkout.{IsCheckout, checkout-IsCheckout}
use practical_microservice.Cart.Service.{checkout}
use practical_microservice.Cart.Planner.{held_quantities, to_cart_lines}
use practical_microservice.Cart.Service.Release.{release_session-IsRelease}
use practical_microservice.Cart.Service.Handback.{IsRelease, owed}
use practical_microservice.Cart.Service.{release_session}

-- The units that are reserved under the reference and not released cover every line.
abbrev covers : List CartLine → List CartLine → (ℕ → ℕ) → Bool
covers [] all units = true
covers (x ∷ xs) all units = leb (total x.product_id all) (units x.product_id) && covers xs all units

abbrev release_held_units : List CartLine → ℕ → Call (Unit {0})
release_held_units lines reference w =
    if covers lines lines (λ p. w.reserved reference p - w.released reference p)
    then (ok tt, record w { released = with_units reference lines w.released })
    else (err (insufficient_stock []), w)

release_held_units_lem :
    (lines : List CartLine) (reference : ℕ) (w : World)
    → (release_held_units lines reference w
        ≡ (ok tt, record w { released = with_units reference lines w.released }))
      ⊎ Refuses (release_held_units lines reference) w
release_held_units_lem lines reference w =
    elim (Bool-cases (covers lines lines (λ p. w.reserved reference p - w.released reference p))) [
      | inl enough ↦ inl (rw enough refl)
      | inr short ↦ inr (insufficient_stock [], rw short refl)
    ]

abbrev memory : Backend
memory = record {
  redis = λ A f w. (ok (f w.keys).0, record w { keys = (f w.keys).1 });
  reserve_many =
      λ lines reference w. (ok tt, record w { reserved = with_units reference lines w.reserved });
  release_many = release_held_units;
  bulk_release = release_held_units;
  redis_lem = λ A f w. inl refl;
  reserve_many_lem = λ lines reference w. inl refl;
  release_many_lem = release_held_units_lem;
  bulk_release_lem = release_held_units_lem;
}

abbrev settings : Settings
settings = record {
  cart_ttl = 900;
  grace = 300;
  lock_retries = 3;
  release_retry_delay = 60000;
  now = 1000;
}

abbrev line : ℕ → ℕ → CartLine
line p n = record { product_id = p; quantity = n }

-- Session 5 holds two units of product 11 and one of product 12.
abbrev shopping : World
shopping = record {
  keys = record {
    items =
        record { product_id = 11; raw = whole (pos 2) }
        ∷ record { product_id = 12; raw = whole (pos 1) }
        ∷ [];
    items_ttl = 1200;
    session = some 900;
    due = some 901000;
    write_lock = none;
    release_lock = none;
  };
  reserved = λ r p. if r == 5 then (if p == 11 then 2 else (if p == 12 then 1 else 0)) else 0;
  released = λ r p. 0;
  log = [];
}

shopping-InSync : InSync 5 shopping
shopping-InSync p = ground arith

-- Five of product 11, and none of product 12.
abbrev wanted : List CartLine
wanted = line 11 5 ∷ line 12 0 ∷ []

set_lines-IsUpdate_example :
    IsUpdate memory settings 5 wanted shopping (set_lines memory settings 5 77 wanted shopping)
set_lines-IsUpdate_example =
    set_lines-IsUpdate memory settings 5 77 wanted shopping (refl, (refl, tt)) shopping-InSync

checkout-IsCheckout_example :
    IsCheckout memory 5 9
      (to_cart_lines (held_quantities shopping.keys.items))
      shopping
      (checkout memory settings 5 77 9 shopping)
checkout-IsCheckout_example = checkout-IsCheckout memory settings 5 9 77 shopping

release_session-IsRelease_example :
    IsRelease memory 5
      (owed memory settings 5 shopping)
      shopping
      (release_session memory settings 5 78 77 shopping)
release_session-IsRelease_example = release_session-IsRelease memory settings 5 78 77 shopping

abbrev holding : List CartLine
holding = line 11 2 ∷ line 12 1 ∷ []

plan_changes-difference_example :
    (total 11 (plan_changes holding wanted).reserve
      ≡ target 11 (get 11 holding) wanted - get 11 holding)
    × (total 11 (plan_changes holding wanted).release
        ≡ get 11 holding - target 11 (get 11 holding) wanted)
plan_changes-difference_example =
    plan_changes-difference 11 holding wanted (refl, (refl, tt)) (refl, (refl, tt))

plan_changes-settle_all_example :
    plan_changes (settle_all holding wanted) wanted ≡ no_changes (settle_all holding wanted)
plan_changes-settle_all_example =
    plan_changes-settle_all holding wanted (refl, (refl, tt)) (refl, (refl, tt))

duplicate_product_ids-nil_iff_example : (duplicate_product_ids wanted ≡ []) ↔ IsUnique wanted
duplicate_product_ids-nil_iff_example = duplicate_product_ids-nil_iff wanted
