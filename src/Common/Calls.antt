-- ===== src/Common/Calls.antt =====
-- Calls that act on a state and answer or fail, and the client of a database that runs them as
-- transactions. A failure is a value: `[error, null]` in the services that return pairs.
use mathlib.Core.Path.{◌≡◌, refl}
use mathlib.Core.Logic.{◌⊎◌, inl, inr}

pub data Reply (E A : Type 0) : Type 0 where
  ok : A → Reply E A
  err : E → Reply E A

pub Reply-cases : {E A : Type 0} (r : Reply E A) → ((a : A) × (r ≡ ok a)) ⊎ ((e : E) × (r ≡ err e))
Reply-cases (ok a) = inl (a, refl)
Reply-cases (err e) = inr (e, refl)

abbrev pub Call : Type 0 → Type 0 → Type 0 → Type 0
Call S E A = S → Reply E A × S

-- How a call can end.
pub data Outcome {S E A : Type 0} (out : Reply E A × S) : Type 0 where
  answered : (a : A) (s : S) → out ≡ (ok a, s) → Outcome out
  failed : (e : E) (s : S) → out ≡ (err e, s) → Outcome out

pub outcome : {S E A : Type 0} (out : Reply E A × S) → Outcome out
outcome (ok a, s) = answered a s refl
outcome (err e, s) = failed e s refl

abbrev pub pure : {S E A : Type 0} → A → Call S E A
pure a s = (ok a, s)

abbrev pub throw : {S E A : Type 0} → E → Call S E A
throw e s = (err e, s)

abbrev pub resume : {S E A B : Type 0} → (A → Call S E B) → Reply E A × S → Reply E B × S
resume f (ok a, s) = f a s
resume f (err e, s) = (err e, s)

infixl 5 ◌>>=◌ ◌>>◌
-- What an earlier call wrote stays written when a later one fails.
unfoldable pub ◌>>=◌ : {S E A B : Type 0} → Call S E A → (A → Call S E B) → Call S E B
◌>>=◌ m f s = resume f (m s)

abbrev pub ◌>>◌ : {S E B : Type 0} → Call S E (Unit {0}) → Call S E B → Call S E B
m >> k = m >>= λ _. k

abbrev pub map_error : {E F A : Type 0} → (E → F) → Reply E A → Reply F A
map_error f (ok a) = ok a
map_error f (err e) = err (f e)

-- A failed transaction leaves no trace.
abbrev pub settle : {S E A : Type 0} → Reply E A × S → S → Reply E A × S
settle (ok a, u) s = (ok a, u)
settle (err e, u) s = (err e, s)

-- The client runs the statements of a transaction as documented, or refuses it and changes nothing.
-- A transaction here ends before the next begins: statements of two that overlap, which the
-- database allows where the code asks for no isolation level, are no run of this client.
pub record Client (S E : Type 0) : Type 1 where
  pub run : (A : Type 0) → Call S E A → Call S E A
  pub run_lem :
      (A : Type 0) (m : Call S E A) (s : S)
      → (run A m s ≡ settle (m s) s) ⊎ ((e : E) × (run A m s ≡ (err e, s)))

abbrev pub in_memory : {S E : Type 0} → Client S E
in_memory = record { run = λ A m s. settle (m s) s; run_lem = λ A m s. inl refl }

abbrev pub branch :
    {S E F A B : Type 0} → (A → Call S F B) → (E → Call S F B) → Reply E A × S → Reply F B × S
branch f g (ok a, s) = f a s
branch f g (err e, s) = g e s

-- Both outcomes of a call are handled: `const [error, data] = await …`.
unfoldable pub either_way :
    {S E F A B : Type 0} → Call S E A → (A → Call S F B) → (E → Call S F B) → Call S F B
either_way m f g s = branch f g (m s)
