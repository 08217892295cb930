-- ===== src/Inventory/Requests/Preserve.antt =====
-- Each request of the service keeps the tables consistent, over any lawful client.
use practical_microservice.Common.{
  ℕ, ◌≡◌, ◌⊎◌, Option, String, arith, inl, inr, Option-cases, Bool-cases,
}
use practical_microservice.Common.Int.{ℤ, pos, ◌≤ℤ◌, ◌+ℤ◌, ◌-ℤ◌, abs, ltb_ℤ, int_laws}
use practical_microservice.Inventory.Rules.{
  Checked, returns, StockLevels, assert_invariants, Checked-cases,
}
use practical_microservice.Inventory.Rules.Laws.{
  assert_invariants_iff, plan_reservation-Sets, plan_release-Sets, plan_fulfilment-Sets,
  plan_sale-Sets, plan_receipt-Sets, plan_adjustment-Sets,
}
use practical_microservice.Inventory.Tables.{StockMovementType, levels, Tables}
use practical_microservice.Inventory.Transaction.{Action, Result, ok, err, bind, continue, give}
use practical_microservice.Inventory.Database.{Database, Agrees}
use practical_microservice.Inventory.Repository.{
  CreateInventoryItemInput, StockChangePlan, IdempotencyKey, ItemMap, Target, sort_targets,
}
use practical_microservice.Inventory.Repository
use practical_microservice.Inventory.Repository.Diff.{UpdateInventoryItemInput}
use practical_microservice.Inventory.Refinement.{
  apply_stock_change-Agrees, create-Agrees, update-Agrees, delete-Agrees,
}
use practical_microservice.Inventory.Invariant.Defs.{Explains, IsConsistent}
use practical_microservice.Inventory.Invariant.Keeps.{
  Keeps, PlansFairly, GuardsPatch, apply_stock_change-Keeps, update-Keeps,
}
use practical_microservice.Inventory.Invariant.Lifecycle.{create-Keeps, delete-Keeps}
use practical_microservice.Inventory.Service.{
  StockInput, change_plan, validate_patch, apply_change, reserve, release_units, fulfil, sell,
  receive, accept_return, adjust,
}

module _ {A : Type 0} where
  pub Keeps-Agrees : (m spec : Action A) → Agrees m spec → Keeps spec → Keeps m
  Keeps-Agrees m spec agrees keeps = record {
    at = λ t c. elim (agrees.at t) [ inl e ↦ rw e (keeps.at t c) | inr e ↦ rw e c ];
  }

module _ {A B : Type 0} where
  pub Keeps-bind-give : (m : Action A) (f : A → B) → Keeps m → Keeps (bind m (λ a. give (f a)))
  unfolding bind
  Keeps-bind-give m f keeps = record { at = λ t c. continue_keeps (m t).0 (m t).1 (keeps.at t c) }
    where
      continue_keeps :
          (r : Result A) (u : Tables)
          → IsConsistent u
          → IsConsistent (continue (λ a. give (f a)) r u).1
      continue_keeps (ok a) u c = c
      continue_keeps (err e) u c = c

-- The rule's change of the quantity is what the ledger row will say.
abbrev IsLogged : StockMovementType → ℤ → (StockLevels → Checked StockLevels) → Type 0
IsLogged type changed plan =
    (l next : StockLevels) → plan l ≡ returns next → Explains type changed l.quantity next.quantity

abbrev stock_plan : StockMovementType → ℤ → StockInput → StockLevels → StockChangePlan
stock_plan type changed meta next = record {
  next = next;
  movement = record {
    type = type;
    quantity = changed;
    reason = meta.reason;
    reference = meta.reference;
  };
}

abs_explains :
    (last delta next : ℤ)
    → next ≡ last +ℤ delta
    → (next ≡ last +ℤ abs delta) ⊎ (next ≡ last -ℤ abs delta)
unfolding abs
abs_explains last delta next h = elim (Bool-cases (ltb_ℤ delta (pos 0))) [
  | inl e ↦ rw e (inr (rw h (omega int_laws)))
  | inr e ↦ rw e (inl h)
]

validate_patch-GuardsPatch :
    (input : UpdateInventoryItemInput) → GuardsPatch input (validate_patch input)
unfolding validate_patch
validate_patch-GuardsPatch input item sound h = elim (Option-cases input.quantity) [
  | inl e ↦ rw e sound
  | inr (quantity, e) ↦ rw e (
      (assert_invariants_iff (record { quantity = quantity; reserved = item.reserved })).0
        (rw e at h))
]

change_plan-PlansFairly :
    (type : StockMovementType) (changed : ℤ) (meta : StockInput)
    (plan : StockLevels → Checked StockLevels)
    → IsLogged type changed plan
    → PlansFairly (change_plan type changed meta plan)
unfolding change_plan
change_plan-PlansFairly type changed meta plan logged item p h =
    elim (Checked-cases (plan (levels item))) [
      | inr (e, q) ↦ absurd (ground arith)
      | inl (next, q) ↦ elim (Checked-cases (assert_invariants next)) [
        | inr (e, r) ↦ absurd (ground arith)
        | inl (checked, r) ↦
            let sound = (assert_invariants_iff next).0 r in
            let same : stock_plan type changed meta next ≡ p = ground arith in
            rw (← same) (sound, logged (levels item) next q)
      ]
    ]

module _ (db : Database) where
  apply_change-Preserves :
      (id : ℕ) (type : StockMovementType) (changed : ℤ) (meta : StockInput)
      (plan : StockLevels → Checked StockLevels)
      → IsLogged type changed plan
      → Keeps (apply_change db id type changed meta plan)
  unfolding apply_change
  apply_change-Preserves id type changed meta plan logged =
      Keeps-bind-give (Repository.apply_stock_change db id (change_plan type changed meta plan)) _ (
        Keeps-Agrees _ _ (apply_stock_change-Agrees db id (change_plan type changed meta plan)) (
          apply_stock_change-Keeps id (change_plan type changed meta plan)
            (change_plan-PlansFairly type changed meta plan logged)))

  module _ (id : ℕ) (input : StockInput) where
    pub reserve-Preserves : Keeps (reserve db id input)
    unfolding reserve
    reserve-Preserves =
        apply_change-Preserves id _ _ input _
          (λ l next. plan_reservation-Sets l input.quantity next)

    pub release_units-Preserves : Keeps (release_units db id input)
    unfolding release_units
    release_units-Preserves =
        apply_change-Preserves id _ _ input _ (λ l next. plan_release-Sets l input.quantity next)

    pub fulfil-Preserves : Keeps (fulfil db id input)
    unfolding fulfil
    fulfil-Preserves =
        apply_change-Preserves id _ _ input _ (λ l next. plan_fulfilment-Sets l input.quantity next)

    pub sell-Preserves : Keeps (sell db id input)
    unfolding sell
    sell-Preserves =
        apply_change-Preserves id _ _ input _ (λ l next. plan_sale-Sets l input.quantity next)

    pub receive-Preserves : Keeps (receive db id input)
    unfolding receive
    receive-Preserves =
        apply_change-Preserves id _ _ input _ (λ l next. plan_receipt-Sets l input.quantity next)

    pub accept_return-Preserves : Keeps (accept_return db id input)
    unfolding accept_return
    accept_return-Preserves =
        apply_change-Preserves id _ _ input _ (λ l next. plan_receipt-Sets l input.quantity next)

    pub adjust-Preserves : Keeps (adjust db id input)
    unfolding adjust
    adjust-Preserves = apply_change-Preserves id _ _ input _ (λ l next h.
        abs_explains l.quantity input.quantity next.quantity
          (plan_adjustment-Sets l input.quantity next h))

  pub create-Preserves :
      (id : ℕ) (input : CreateInventoryItemInput)
      → pos 0 ≤ℤ input.quantity
      → Keeps (Repository.create db id input)
  create-Preserves id input h =
      Keeps-Agrees _ _ (create-Agrees db id input) (create-Keeps id input h)

  pub delete-Preserves : (id : ℕ) → Keeps (Repository.delete db id)
  delete-Preserves id = Keeps-Agrees _ _ (delete-Agrees db id) (delete-Keeps id)

  pub update-Preserves :
      (id : ℕ) (input : UpdateInventoryItemInput) (actor : Option String)
      → Keeps (Repository.update db id input actor (validate_patch input))
  update-Preserves id input actor =
      Keeps-Agrees _ _ (update-Agrees db id input actor (validate_patch input))
        (update-Keeps id input actor (validate_patch input) (validate_patch-GuardsPatch input))
