-- ===== src/Cart/Service/Settle.antt =====
-- `setLines` settles the cart and inventory together, or neither.
use practical_microservice.Common.{
  ℕ, ◌+◌, ◌≡◌, ◌⊎◌, inl, inr, refl, ◌∙◌, sym, ap, Bool, true, Bool-cases, List, [], arith,
}
use practical_microservice.Cart.Types.{CartLine, CartChanges, is_noop}
use practical_microservice.Cart.Planner.{held_quantities, plan_changes, exceeds_bulk_limit}
use practical_microservice.Cart.Planner.Maps.{IsUnique}
use practical_microservice.Cart.Planner.Plan.{total, target, plan_changes-balance}
use practical_microservice.Cart.Store.{Keys, Lifetimes, cart_touch}
use practical_microservice.Cart.Store.Hash.{
  stored, IsHash, held_quantities-IsUnique, get-held_quantities, get-to_cart_lines,
}
use practical_microservice.Cart.Calls.{World, Backend, ◌>>=◌, pure, throw}
use practical_microservice.Cart.Repository.{Settings, commit, held, lines, touch, lifetimes}
use practical_microservice.Cart.Service.{reserve_some, release_some, apply_changes, apply_requested}
use practical_microservice.Cart.Service.Moves.{
  kept_when_nothing, IsMoved, IsMoved-trans, reserve_some-IsMoved, release_some-IsMoved,
}
use practical_microservice.Cart.Service.Update.{
  settled_items, InSync, IsUpdate, or_roll_back-cases, or_roll_back-ok, commit-cases, committed,
}

is_noop-nil : (c : CartChanges) → is_noop c ≡ true → (c.reserve ≡ []) × (c.release ≡ [])
unfolding is_noop
is_noop-nil c h = ground arith

items-cart_touch : (l : Lifetimes) (keys : Keys) → (cart_touch l keys).1.items ≡ keys.items
unfolding cart_touch
items-cart_touch l keys = ground arith

module _ (b : Backend) (s : Settings) (session : ℕ) (w : World) (requested : List CartLine)
    (d : IsHash w.keys.items) (sync : InSync session w) where
  module _ (distinct : IsUnique requested) where
    abbrev changes : CartChanges
    changes = plan_changes (held_quantities w.keys.items) requested

    first_stranded : {A B C : Type 0} → A ⊎ B → A ⊎ (B ⊎ C)
    first_stranded (inl a) = inl a
    first_stranded (inr c) = inr (inl c)

    second_stranded : {A B C : Type 0} → A ⊎ C → A ⊎ (B ⊎ C)
    second_stranded (inl a) = inl a
    second_stranded (inr c) = inr (inr c)

    apply_changes-IsUpdate : IsUpdate b s session requested w (apply_changes b s session changes w)
    unfolding apply_changes ◌>>=◌
    apply_changes-IsUpdate =
        let nothing : IsMoved session [] [] w w = record {
          keys = refl;
          log = refl;
          holds = λ r p. refl;
        } in
        elim (reserve_some-IsMoved b s session changes.reserve w) [
          | inr refusal ↦
              let (e, v, q, undone) =
                or_roll_back-cases b s session (reserve_some b s session changes.reserve) [] [] w w
                  nothing refusal in
              rw q (ap (λ k. k.items) undone.keys, inl (kept_when_nothing b s session w v undone))
          | inl (u, q, m) ↦
              let q' =
                or_roll_back-ok b s session (reserve_some b s session changes.reserve) [] [] w u tt
                  q in
              elim (release_some-IsMoved b s session changes.release u) [
                | inr refusal ↦
                    let (e, v, f, undone) =
                      or_roll_back-cases b s session (release_some b s session changes.release)
                        changes.reserve [] w u m refusal in
                    rw q' (rw f (ap (λ k. k.items) undone.keys, first_stranded undone.holds))
                | inl (v, f, n) ↦
                    let f' =
                      or_roll_back-ok b s session (release_some b s session changes.release)
                        changes.reserve [] u v tt f in
                    let moved = IsMoved-trans session changes.reserve changes.release w u v m n in
                    elim (commit-cases b s session changes v) [
                      | inr refusal ↦
                          let (e, x, g, undone) =
                            or_roll_back-cases b s session (commit b s changes) changes.reserve
                              changes.release w v moved refusal in
                          rw q' (
                            rw f'
                              (rw g (ap (λ k. k.items) undone.keys, second_stranded undone.holds)))
                      | inl (keys, g, kept) ↦
                          let same = ap (λ k. settled_items changes k.items) moved.keys in
                          let g' =
                            or_roll_back-ok b s session (commit b s changes) changes.reserve
                              changes.release v (record v { keys = keys }) _ g in
                          rw q' (
                            rw f' (
                              rw g' (
                                rw same (
                                  committed b s session w v requested keys d sync distinct moved
                                    (kept ∙ same)))))
                    ]
              ]
        ]

    -- A plan that moves nothing asks for what the cart holds.
    noop-target :
        is_noop changes ≡ true
        → (p : ℕ) → target p (stored p w.keys.items) requested ≡ stored p w.keys.items
    unfolding is_noop
    noop-target h p =
        let held = held_quantities w.keys.items in
        let balance =
          plan_changes-balance p held requested (held_quantities-IsUnique w.keys.items) in
        let balanced = rw (get-held_quantities p w.keys.items d) at balance in
        let (kept, given) = is_noop-nil changes h in
        let cleared : stored p w.keys.items + total p []
            ≡ target p (stored p w.keys.items) requested + total p [] =
          rw (kept, given) at balanced in
        omega (arith, cleared)

    unmoved-IsUpdate :
        is_noop changes ≡ true
        → IsUpdate b s session requested w ((touch b s >>= λ alive. lines b) w)
    unfolding touch lines held ◌>>=◌ pure
    unmoved-IsUpdate h = elim (b.redis_lem Bool (cart_touch (lifetimes s)) w) [
      | inr (e, q) ↦ rw q (refl, inl ((λ r p. refl), refl))
      | inl q ↦
          let keys = (cart_touch (lifetimes s) w.keys).1 in
          let kept : keys.items ≡ w.keys.items = items-cart_touch (lifetimes s) w.keys in
          elim (b.redis_lem (List CartLine) (λ k. (held_quantities k.items, k))
            (record w { keys = keys })) [
              | inr (e, f) ↦ rw q (rw f (kept, inl ((λ r p. refl), refl)))
              | inl f ↦ rw q (
                  rw f (record {
                    cart = λ p. rw kept (sym (noop-target h p));
                    answered = λ p. rw kept (
                        get-to_cart_lines p (held_quantities w.keys.items)
                          (held_quantities-IsUnique w.keys.items)
                        ∙ get-held_quantities p w.keys.items d
                        ∙ sym (noop-target h p));
                    synced = λ p. rw kept (sync p);
                    others = λ r p other. refl;
                    hash = rw kept d;
                  }))
            ]
    ]

    pub apply_requested-IsUpdate :
        IsUpdate b s session requested w (apply_requested b s session requested w)
    unfolding apply_requested held ◌>>=◌ throw
    apply_requested-IsUpdate =
        elim (b.redis_lem (List CartLine) (λ k. (held_quantities k.items, k)) w) [
          | inr (e, q) ↦ rw q (refl, inl ((λ r p. refl), refl))
          | inl q ↦ elim (Bool-cases (exceeds_bulk_limit changes)) [
            | inl over ↦ rw q (rw over (refl, inl ((λ r p. refl), refl)))
            | inr fits ↦ elim (Bool-cases (is_noop changes)) [
              | inl noop ↦ rw q (rw fits (rw noop (unmoved-IsUpdate noop)))
              | inr moves ↦ rw q (rw fits (rw moves apply_changes-IsUpdate))
            ]
          ]
        ]
