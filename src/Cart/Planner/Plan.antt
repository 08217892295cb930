-- ===== src/Cart/Planner/Plan.antt =====
-- What a plan asks for, product by product.
use practical_microservice.Common.{
  ℕ, ◌+◌, ◌-◌, ◌≡◌, refl, false, List, [], ◌∷◌, ◌==◌, if◌then◌else◌, length, arith, Bool-cases, inl,
  inr, sym, ap, All, All-mono,
}
use practical_microservice.Cart.Types.{CartLine, CartChanges}
use practical_microservice.Cart.Planner.{get, has, no_changes, settle_line, push_line, plan_changes}
use practical_microservice.Cart.Planner.Maps.{
  has_line, IsUnique, get-set, get-delete, set-IsUnique, delete-IsUnique,
}

-- The units of a product in some lines.
abbrev pub total : ℕ → List CartLine → ℕ
total p [] = 0
total p (x ∷ xs) = if x.product_id == p then x.quantity + total p xs else total p xs

-- What a product's quantity of `n` is to become.
abbrev pub target : ℕ → ℕ → List CartLine → ℕ
target p n [] = n
target p n (x ∷ xs) = if x.product_id == p then target p x.quantity xs else target p n xs

-- `settled` when the loop ends.
abbrev pub settle_all : List CartLine → List CartLine → List CartLine
settle_all settled [] = settled
settle_all settled (line ∷ requested) = settle_all (settle_line settled line) requested

pub settle_line-IsUnique :
    (settled : List CartLine) (line : CartLine)
    → IsUnique settled
    → IsUnique (settle_line settled line)
unfolding settle_line
settle_line-IsUnique settled line d =
    ground (arith, set-IsUnique line settled d, delete-IsUnique line.product_id settled d)

pub get-settle_line :
    (p : ℕ) (settled : List CartLine) (line : CartLine)
    → IsUnique settled
    → get p (settle_line settled line)
      ≡ (if line.product_id == p then line.quantity else get p settled)
unfolding settle_line
get-settle_line p settled line d =
    ground (arith, get-set p line settled, get-delete p line.product_id settled d)

pub get-settle_all :
    (p : ℕ) (settled requested : List CartLine)
    → IsUnique settled
    → get p (settle_all settled requested) ≡ target p (get p settled) requested
get-settle_all p settled [] d = refl
get-settle_all p settled (line ∷ requested) d =
    let again =
      get-settle_all p (settle_line settled line) requested (settle_line-IsUnique settled line d) in
    ground (arith, again, get-settle_line p settled line d)

pub settle_all-IsUnique :
    (settled requested : List CartLine) → IsUnique settled → IsUnique (settle_all settled requested)
settle_all-IsUnique settled [] d = d
settle_all-IsUnique settled (line ∷ requested) d =
    settle_all-IsUnique (settle_line settled line) requested (settle_line-IsUnique settled line d)

pub size-plan_changes :
    (settled requested : List CartLine)
    → (plan_changes settled requested).size ≡ length (settle_all settled requested)
unfolding plan_changes push_line
size-plan_changes settled [] = refl
size-plan_changes settled (line ∷ requested) =
    ground (arith, size-plan_changes (settle_line settled line) requested)

-- One round pushes the difference that it makes.
push_line-balance :
    (p : ℕ) (before : ℕ) (line : CartLine) (rest : CartChanges) (m n : ℕ)
    → (if line.product_id == p then line.quantity else m) + total p rest.reserve
      ≡ n + total p rest.release
    → (line.product_id ≡ p → m ≡ before)
    → m + total p (push_line before line rest).reserve
      ≡ n + total p (push_line before line rest).release
unfolding push_line
push_line-balance p before line rest m n h k = ground arith

-- Where no product is held twice, a plan balances for every product: the units held and those to
-- reserve are as many as the quantity asked for and those to release.
pub plan_changes-balance :
    (p : ℕ) (settled requested : List CartLine)
    → IsUnique settled
    → get p settled + total p (plan_changes settled requested).reserve
      ≡ target p (get p settled) requested + total p (plan_changes settled requested).release
unfolding plan_changes
plan_changes-balance p settled [] d = refl
plan_changes-balance p settled (line ∷ requested) d =
    let next = settle_line settled line in
    let again = plan_changes-balance p next requested (settle_line-IsUnique settled line d) in
    let read = get-settle_line p settled line d in
    let before = get line.product_id settled in
    let rest = plan_changes next requested in
    push_line-balance p before line rest (get p settled)
      (if line.product_id == p
        then target p line.quantity requested
        else target p (get p settled) requested)
      (ground arith) (λ e. ap (λ q. get q settled) (sym e))

module _ (p : ℕ) where
  unnamed-writes :
      (settled requested : List CartLine) (n : ℕ)
      → has_line p requested ≡ false
      → target p n (plan_changes settled requested).writes ≡ n
  unfolding plan_changes push_line
  unnamed-writes settled [] n h = refl
  unnamed-writes settled (line ∷ requested) n h =
      ground (arith, unnamed-writes (settle_line settled line) requested n)

  unnamed-removals :
      (settled requested : List CartLine)
      → has_line p requested ≡ false
      → has p (plan_changes settled requested).removals ≡ false
  unfolding plan_changes push_line
  unnamed-removals settled [] h = refl
  unnamed-removals settled (line ∷ requested) h =
      ground (arith, unnamed-removals (settle_line settled line) requested)

  pub unnamed-target :
      (n : ℕ) (requested : List CartLine) → has_line p requested ≡ false → target p n requested ≡ n
  unnamed-target n [] h = refl
  unnamed-target n (line ∷ requested) h = ground (arith, unnamed-target n requested)

  unnamed-moves :
      (settled requested : List CartLine)
      → has_line p requested ≡ false
      → (total p (plan_changes settled requested).reserve ≡ 0)
        × (total p (plan_changes settled requested).release ≡ 0)
  unfolding plan_changes push_line
  unnamed-moves settled [] h = (refl, refl)
  unnamed-moves settled (line ∷ requested) h =
      let again = unnamed-moves (settle_line settled line) requested (ground arith) in
      (ground (arith, again.0), ground (arith, again.1))

  -- Where no product is held or named twice, a plan reserves for every product just the units that
  -- the quantity asked for (the old one where the request does not name it) is above the one held,
  -- and releases just those that it is below, so never both.
  pub plan_changes-difference :
      (settled requested : List CartLine)
      → IsUnique settled
      → IsUnique requested
      → (total p (plan_changes settled requested).reserve
          ≡ target p (get p settled) requested - get p settled)
        × (total p (plan_changes settled requested).release
            ≡ get p settled - target p (get p settled) requested)
  unfolding plan_changes push_line
  plan_changes-difference settled [] d e = (omega arith, omega arith)
  plan_changes-difference settled (line ∷ requested) d e =
      let next = settle_line settled line in
      let read = get-settle_line p settled line d in
      elim (Bool-cases (line.product_id == p)) [
        | inl named ↦
            let alone : has_line p requested ≡ false = ground arith in
            let same : line.product_id ≡ p = ground arith in
            let still = unnamed-moves next requested alone in
            let wanted = unnamed-target line.quantity requested alone in
            (ground (arith, still.0, wanted), ground (arith, still.1, wanted))
        | inr other ↦
            let again =
              plan_changes-difference next requested (settle_line-IsUnique settled line d) e.1 in
            (ground (arith, again.0), ground (arith, again.1))
      ]

  -- The writes and removals of a plan, as a change of one product's quantity.
  pub stored-plan_changes :
      (settled requested : List CartLine)
      → IsUnique settled
      → IsUnique requested
      → (if has p (plan_changes settled requested).removals
          then 0
          else target p (get p settled) (plan_changes settled requested).writes)
        ≡ target p (get p settled) requested
  unfolding plan_changes push_line
  stored-plan_changes settled [] d e = refl
  stored-plan_changes settled (line ∷ requested) d e =
      let next = settle_line settled line in
      let read = get-settle_line p settled line d in
      elim (Bool-cases (line.product_id == p)) [
        | inl named ↦
            let alone : has_line p requested ≡ false = ground arith in
            ground (
              arith,
              unnamed-removals next requested alone,
              unnamed-writes next requested line.quantity alone,
              unnamed-writes next requested (get p settled) alone,
              unnamed-target line.quantity requested alone,
            )
        | inr other ↦
            let again =
              stored-plan_changes next requested (settle_line-IsUnique settled line d) e.1 in
            ground arith
      ]

pub no_changes_when :
    (settled requested : List CartLine)
    → All (λ x. x.quantity ≡ get x.product_id settled) requested
    → plan_changes settled requested ≡ no_changes settled
unfolding plan_changes push_line settle_line
no_changes_when settled [] h = refl
no_changes_when settled (line ∷ requested) (same, h) =
    ground (arith, no_changes_when settled requested h)

module _ (held : ℕ → ℕ) where
  -- Each line has what the request makes of its product.
  abbrev pub IsMet : List CartLine → List CartLine → Type 0
  IsMet requested = All (λ x. x.quantity ≡ target x.product_id (held x.product_id) requested)

  IsMet-cons :
      (line : CartLine) (requested xs : List CartLine)
      → has_line line.product_id xs ≡ false
      → IsMet requested xs
      → IsMet (line ∷ requested) xs
  IsMet-cons line requested [] h met = tt
  IsMet-cons line requested (x ∷ xs) h (same, met) =
      (ground arith, IsMet-cons line requested xs (ground arith) met)

  IsMet-self : (requested : List CartLine) → IsUnique requested → IsMet requested requested
  IsMet-self [] d = tt
  IsMet-self (line ∷ requested) (alone, d) = (
    ground (arith, unnamed-target line.product_id line.quantity requested alone),
    IsMet-cons line requested requested alone (IsMet-self requested d),
  )

-- Asking again for what a request without duplicates has settled moves nothing.
pub plan_changes-settle_all :
    (held requested : List CartLine)
    → IsUnique held
    → IsUnique requested
    → plan_changes (settle_all held requested) requested ≡ no_changes (settle_all held requested)
plan_changes-settle_all held requested d e = no_changes_when (settle_all held requested) requested (
    All-mono _ (λ x. x.quantity ≡ get x.product_id (settle_all held requested))
      (λ x same. rw (get-settle_all x.product_id held requested d) same) requested
      (IsMet-self (λ p. get p held) requested e))
