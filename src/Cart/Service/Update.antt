-- ===== src/Cart/Service/Update.antt =====
-- What an update of a cart does to the cart and to inventory together.
use practical_microservice.Common.{
  ℕ, ◌≡◌, ◌⊎◌, inl, inr, refl, ◌∙◌, ap, false, List, [], ◌+◌, ◌==◌, if◌then◌else◌, arith,
}
use practical_microservice.Cart.Types.{CartLine, CartChanges}
use practical_microservice.Cart.Planner.{
  get, has, Entry, held_quantities, to_cart_lines, plan_changes,
}
use practical_microservice.Cart.Planner.Maps.{IsUnique}
use practical_microservice.Cart.Planner.Plan.{target, plan_changes-balance, stored-plan_changes}
use practical_microservice.Cart.Store.{Keys, Lifetimes, cart_commit, rearm, hset_all, hdel_all}
use practical_microservice.Cart.Store.Hash.{
  stored, IsHash, held_quantities-IsUnique, get-held_quantities, hset_all-IsHash, hdel_all-IsHash,
  stored-hset_all, stored-hdel_all, get-to_cart_lines,
}
use practical_microservice.Cart.Calls.{
  World, Reply, ok, err, CartError, Call, Backend, ◌>>=◌, pure, throw, catch, Refuses,
}
use practical_microservice.Cart.Repository.{Settings, commit, lifetimes}
use practical_microservice.Cart.Service.{or_roll_back}
use practical_microservice.Cart.Service.Moves.{
  SameHolds, IsMoved, IsUndone, IsStranded, rollback-IsUndone,
}

-- What inventory has accepted to reserve for the session, less what it has accepted to release, is
-- what the cart says.
abbrev pub InSync : ℕ → World → Type 0
InSync session w = (p : ℕ) → w.reserved session p ≡ w.released session p + stored p w.keys.items

-- An update that returns has given every product the quantity asked for, in the cart, in the
-- answer and in what is reserved for the session, and has left every other reference as it was.
pub record IsSettled (session : ℕ) (requested : List CartLine) (w : World) (answer : List CartLine)
    (u : World) : Type 0 where
  pub cart : (p : ℕ) → stored p u.keys.items ≡ target p (stored p w.keys.items) requested
  pub answered : (p : ℕ) → get p answer ≡ target p (stored p w.keys.items) requested
  pub synced : InSync session u
  pub others :
      (r p : ℕ)
      → (r == session) ≡ false
      → u.reserved r p + w.released r p ≡ w.reserved r p + u.released r p
  pub hash : IsHash u.keys.items

module _ (b : Backend) (s : Settings) (session : ℕ) where
  -- An update that throws has moved and logged nothing, or a rollback did not succeed: of what the
  -- plan reserves, or of that and what it releases.
  abbrev pub IsUnmoved : CartChanges → World → World → Type 0
  IsUnmoved changes w u =
      (SameHolds w u × (u.log ≡ w.log))
      ⊎ (IsStranded b s session changes.reserve [] w u
          ⊎ IsStranded b s session changes.reserve changes.release w u)

  abbrev pub IsUpdate : List CartLine → World → Reply (List CartLine) × World → Type 0
  IsUpdate requested w (ok answer, u) = IsSettled session requested w answer u
  IsUpdate requested w (err e, u) =
      (u.keys.items ≡ w.keys.items)
      × IsUnmoved (plan_changes (held_quantities w.keys.items) requested) w u

-- The hash after a commit of a plan.
abbrev pub settled_items : CartChanges → List Entry → List Entry
settled_items changes items = hdel_all changes.removals (hset_all changes.writes items)

settled_items-IsHash :
    (changes : CartChanges) (items : List Entry)
    → IsHash items
    → IsHash (settled_items changes items)
settled_items-IsHash changes items d =
    hdel_all-IsHash changes.removals (hset_all changes.writes items)
      (hset_all-IsHash changes.writes items d)

items-rearm : (l : Lifetimes) (keys : Keys) → (rearm l keys).items ≡ keys.items
unfolding rearm
items-rearm l keys = ground arith

module _ (items : List Entry) (requested : List CartLine) (d : IsHash items)
    (distinct : IsUnique requested) where
  stored-settled_items :
      (p : ℕ)
      → stored p (settled_items (plan_changes (held_quantities items) requested) items)
        ≡ target p (stored p items) requested
  stored-settled_items p =
      let changes = plan_changes (held_quantities items) requested in
      let plan =
        stored-plan_changes p (held_quantities items) requested (held_quantities-IsUnique items)
          distinct in
      let written = hset_all changes.writes items in
      let read : get p (held_quantities items) ≡ stored p items = get-held_quantities p items d in
      stored-hdel_all p changes.removals written (hset_all-IsHash changes.writes items d)
      ∙ ap (λ n. if has p changes.removals then 0 else n) (stored-hset_all p changes.writes items)
      ∙ rw read at plan

module _ (b : Backend) (s : Settings) (session : ℕ) where
  pub or_roll_back-cases :
      {A : Type 0} (m : Call A) (reserved released : List CartLine) (w u : World)
      → IsMoved session reserved released w u
      → Refuses m u
      → (e : CartError) × (v : World) × (or_roll_back b s session m reserved released u
          ≡ (err e, v))
        × IsUndone b s session reserved released w v
  unfolding or_roll_back catch ◌>>=◌ throw
  or_roll_back-cases m reserved released w u moved (e, q) =
      let (v, q', undone) = rollback-IsUndone b s session reserved released w u moved in
      (e, v, rw q (rw q' refl), undone)

  pub or_roll_back-ok :
      {A : Type 0} (m : Call A) (reserved released : List CartLine) (u v : World) (a : A)
      → m u ≡ (ok a, v)
      → or_roll_back b s session m reserved released u ≡ (ok a, v)
  unfolding or_roll_back catch
  or_roll_back-ok m reserved released u v a q = rw q refl

  pub commit-cases :
      (changes : CartChanges) (u : World)
      → ((keys : Keys) × (commit b s changes u ≡ (
        ok (to_cart_lines (held_quantities (settled_items changes u.keys.items))),
        record u { keys = keys },
      ))
          × (keys.items ≡ settled_items changes u.keys.items))
        ⊎ Refuses (commit b s changes) u
  unfolding commit cart_commit ◌>>=◌ pure
  commit-cases changes u =
      elim (b.redis_lem _ (cart_commit (lifetimes s) changes.writes changes.removals) u) [
        | inr (e, q) ↦ inr (e, rw q refl)
        | inl q ↦
            let wanted = record u.keys { items = settled_items changes u.keys.items } in
            inl (rearm (lifetimes s) wanted, rw q refl, items-rearm (lifetimes s) wanted)
      ]

  pub committed :
      (w v : World) (requested : List CartLine) (keys : Keys)
      → IsHash w.keys.items
      → InSync session w
      → IsUnique requested
      → let changes = plan_changes (held_quantities w.keys.items) requested in
        IsMoved session changes.reserve changes.release w v
        → keys.items ≡ settled_items changes w.keys.items
        → IsSettled session requested w
            (to_cart_lines (held_quantities (settled_items changes w.keys.items)))
            (record v { keys = keys })
  committed w v requested keys d sync distinct m kept =
      let held = held_quantities w.keys.items in
      let changes = plan_changes held requested in
      let items = settled_items changes w.keys.items in
      let hash : IsHash items = settled_items-IsHash changes w.keys.items d in
      let cart : (p : ℕ) → stored p items ≡ target p (stored p w.keys.items) requested =
        stored-settled_items w.keys.items requested d distinct in
      record {
        cart = λ p. rw kept (cart p);
        answered = λ p.
            get-to_cart_lines p (held_quantities items) (held_quantities-IsUnique items)
            ∙ get-held_quantities p items hash
            ∙ cart p;
        synced = λ p.
            let balance =
              plan_changes-balance p held requested (held_quantities-IsUnique w.keys.items) in
            let read : get p held ≡ stored p w.keys.items = get-held_quantities p w.keys.items d in
            let balanced = rw read at balance in
            ground (arith, cart p, balanced, sync p, m.holds session p, kept);
        others = λ r p other. ground (arith, m.holds r p);
        hash = rw kept hash;
      }
