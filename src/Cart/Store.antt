-- ===== src/Cart/Store.antt =====
-- What Redis keeps for one cart, and the scripts that change it:
-- services/cart/src/cart/cart.scripts.ts. A key with a lifetime stands beside the seconds that its
-- last command gave it; a key that lapses does so between calls.
pub mod Hash
use practical_microservice.Common.{
  ℕ, Bool, true, false, List, [], ◌∷◌, Option, none, some, ◌==◌, if◌then◌else◌,
}
use practical_microservice.Common.Int.{pos}
use practical_microservice.Cart.Types.{CartLine, is_empty}
use practical_microservice.Cart.Planner.{Entry, whole}

pub record Keys : Type 0 where
  pub items : List Entry
  pub items_ttl : ℕ
  pub session : Option ℕ
  pub due : Option ℕ
  pub write_lock : Option ℕ
  pub release_lock : Option ℕ

-- The lifetimes of services/cart/src/cart/cart.keys.ts and the moment that the call falls due.
pub record Lifetimes : Type 0 where
  pub session_ttl : ℕ
  pub items_ttl : ℕ
  pub due_at : ℕ

-- `HSET` of one field.
abbrev pub hset : CartLine → List Entry → List Entry
hset line [] = record { product_id = line.product_id; raw = whole (pos line.quantity) } ∷ []
hset line (x ∷ xs) =
    if x.product_id == line.product_id
    then record { product_id = line.product_id; raw = whole (pos line.quantity) } ∷ xs
    else x ∷ hset line xs

-- `HDEL` of one field.
abbrev pub hdel : ℕ → List Entry → List Entry
hdel p [] = []
hdel p (x ∷ xs) = if x.product_id == p then xs else x ∷ hdel p xs

abbrev pub hset_all : List CartLine → List Entry → List Entry
hset_all [] items = items
hset_all (line ∷ writes) items = hset_all writes (hset line items)

abbrev pub hdel_all : List ℕ → List Entry → List Entry
hdel_all [] items = items
hdel_all (p ∷ removals) items = hdel_all removals (hdel p items)

-- The end of `CART_COMMIT`: a hash without fields does not exist.
unfoldable pub rearm : Lifetimes → Keys → Keys
rearm l keys =
    if is_empty keys.items
    then record keys { session = none; due = none }
    else record keys { items_ttl = l.items_ttl; session = some l.session_ttl; due = some l.due_at }

unfoldable pub cart_commit : Lifetimes → List CartLine → List ℕ → Keys → List Entry × Keys
unfolding rearm
cart_commit l writes removals keys =
    let items = hdel_all removals (hset_all writes keys.items) in
    (items, rearm l (record keys { items = items }))

unfoldable pub cart_touch : Lifetimes → Keys → Bool × Keys
cart_touch l keys = elim keys.session [
  | none ↦ (false, keys)
  | some left ↦ (
    true,
    if is_empty keys.items then record keys { session = some l.session_ttl } else record keys {
      items_ttl = l.items_ttl;
      session = some l.session_ttl;
      due = some l.due_at;
    },
  )
]

unfoldable pub cart_take : ℕ → Keys → List Entry × Keys
cart_take in_flight_ttl keys =
    (keys.items, if is_empty keys.items then keys else record keys { items_ttl = in_flight_ttl })

unfoldable pub cart_finish : Keys → Unit {0} × Keys
cart_finish keys = (tt, record keys { items = []; due = none })

unfoldable pub cart_discard : Keys → Unit {0} × Keys
cart_discard keys = (tt, record keys { items = []; session = none; due = none })
