-- ===== src/Inventory/Transaction.antt =====
-- Results, and the bodies of the interactive transactions of the inventory repository
-- (services/inventory/src/modules/inventory/inventory.repository.ts).
use practical_microservice.Inventory.Errors.{AppError}
use practical_microservice.Inventory.Rules.{Checked, returns, throws}
use practical_microservice.Inventory.Tables.{Tables}

-- P2002, P2025, and every other refusal.
pub data PrismaError : Type 0 where
  unique_violation record_not_found refused : PrismaError

-- What a promise may reject with.
pub data Failure : Type 0 where
  raised : AppError → Failure
  prisma : PrismaError → Failure

pub data Result (A : Type 0) : Type 0 where
  ok : A → Result A
  err : Failure → Result A

-- The body of an interactive transaction.
abbrev pub Tx : Type 0 → Type 0
Tx A = Tables → Result (A × Tables)

unfoldable pub pure : {A : Type 0} → A → Tx A
pure a t = ok (a, t)

unfoldable pub throw : {A : Type 0} → AppError → Tx A
throw e t = err (raised e)

-- A rule of the domain, inside a transaction.
unfoldable pub lift : {A : Type 0} → Checked A → Tx A
lift (returns a) t = ok (a, t)
lift (throws e) t = err (raised e)

abbrev pub resume : {A B : Type 0} → (A → Tx B) → Result (A × Tables) → Result (B × Tables)
resume f (ok (a, t)) = f a t
resume f (err e) = err e

infixl 5 ◌>>=◌ ◌>>◌
-- Opening this opens the actions above too.
unfoldable pub ◌>>=◌ : {A B : Type 0} → Tx A → (A → Tx B) → Tx B
unfolding pure throw lift
◌>>=◌ m f t = resume f (m t)

abbrev pub ◌>>◌ : {B : Type 0} → Tx (Unit {0}) → Tx B → Tx B
m >> k = m >>= λ _. k

-- The caller's view of a transaction whose body ended so.
abbrev pub settle : {A : Type 0} → Result (A × Tables) → Tables → Result A × Tables
settle (ok (a, t')) t = (ok a, t')
settle (err e) t = (err e, t)

-- An operation outside a transaction.
abbrev pub Action : Type 0 → Type 0
Action A = Tables → Result A × Tables

unfoldable pub give : {A : Type 0} → A → Action A
give a t = (ok a, t)

unfoldable pub fail : {A : Type 0} → AppError → Action A
fail e t = (err (raised e), t)

abbrev pub continue : {A B : Type 0} → (A → Action B) → Result A → Tables → Result B × Tables
continue f (ok a) t = f a t
continue f (err e) t = (err e, t)

-- Calls one after the other; what an earlier one wrote stays written.
unfoldable pub bind : {A B : Type 0} → Action A → (A → Action B) → Action B
unfolding give fail
bind m f t = let (r, t') = m t in continue f r t'
