-- ===== src/Auth/Agreement.antt =====
-- What any lawful client does is what the client in memory does, or a failure.
pub mod Requests
use practical_microservice.Common.{
  ℕ, ◌≡◌, refl, sym, ◌∙◌, ◌⊎◌, Bool, true, false, Option, none, some, inl, inr, if◌then◌else◌,
}
use practical_microservice.Common.Calls.{
  Reply, ok, err, Call, pure, throw, resume, ◌>>=◌, map_error, settle, Client, in_memory,
}
use practical_microservice.Auth.Errors.{AppError, PrismaError, to_app_error}
use practical_microservice.Auth.Tables.{Tables}
use practical_microservice.Auth.Statement.{Tx}
use practical_microservice.Auth.Repository.{Query, attempt, statement}

abbrev pub IsFailure : {A : Type 0} → Reply AppError A × Tables → Type 0
IsFailure (ok a, t) = ⊥
IsFailure (err e, t) = Unit {0}

pub record Agrees {A : Type 0} (m spec : Query A) : Type 0 where
  pub at : (t : Tables) → (m t ≡ spec t) ⊎ IsFailure (m t)

-- An answer comes from the run in memory.
pub Agrees-ok :
    {A : Type 0} (m spec : Query A) (t u : Tables) (a : A)
    → Agrees m spec
    → m t ≡ (ok a, u)
    → spec t ≡ (ok a, u)
Agrees-ok m spec t u a h k = elim (h.at t) [ inl e ↦ sym e ∙ k | inr e ↦ absurd (rw k at e) ]

pub Agrees-self : {A : Type 0} (m : Query A) → Agrees m m
Agrees-self m = record { at = λ t. inl refl }

pub statement-Agrees :
    {A : Type 0} (db : Client Tables PrismaError) (m : Tx A)
    → Agrees (statement db m) (statement in_memory m)
unfolding attempt
statement-Agrees {A} db m = record {
  at = λ t. elim (db.run_lem A m t) [ inl e ↦ rw e (inl refl) | inr (x, e) ↦ rw e (inr tt) ];
}

module _ {A B : Type 0} where
  IsFailure-resume :
      (f : A → Query B) (r : Reply AppError A × Tables) → IsFailure r → IsFailure (resume f r)
  IsFailure-resume f (ok a, t) h = absurd h
  IsFailure-resume f (err e, t) h = tt

  Agrees-resume :
      (f g : A → Query B)
      → ((a : A) → Agrees (f a) (g a))
      → (r : Reply AppError A × Tables) → (resume f r ≡ resume g r) ⊎ IsFailure (resume f r)
  Agrees-resume f g h (ok a, t) = (h a).at t
  Agrees-resume f g h (err e, t) = inl refl

  pub bind-Agrees :
      (m n : Query A) (f g : A → Query B)
      → Agrees m n
      → ((a : A) → Agrees (f a) (g a))
      → Agrees (m >>= f) (n >>= g)
  unfolding ◌>>=◌
  bind-Agrees m n f g h k = record {
    at = λ t. elim (h.at t) [
      | inl e ↦ rw e (Agrees-resume f g k (n t))
      | inr e ↦ inr (IsFailure-resume f (m t) e)
    ];
  }

pub if-Agrees :
    {B : Type 0} (b : Bool) (m n m' n' : Query B)
    → Agrees m m'
    → Agrees n n'
    → Agrees (if b then m else n) (if b then m' else n')
if-Agrees true m n m' n' h k = h
if-Agrees false m n m' n' h k = k

pub ruleset agree_rules = (Agrees-self, statement-Agrees, bind-Agrees, if-Agrees)

-- A call that answers with an error whatever the tables hold.
pub record Fails {A : Type 0} (m : Query A) : Type 0 where
  pub at : (t : Tables) → IsFailure (m t)

pub throw-Fails : {A : Type 0} (e : AppError) → Fails {A = A} (throw e)
throw-Fails e = record { at = λ t. tt }

module _ {A B : Type 0} where
  resume-Fails :
      (f : A → Query B)
      → ((a : A) → Fails (f a))
      → (r : Reply AppError A × Tables) → IsFailure (resume f r)
  resume-Fails f h (ok a, t) = (h a).at t
  resume-Fails f h (err e, t) = tt

  pub bind-Fails : (m : Query A) (f : A → Query B) → ((a : A) → Fails (f a)) → Fails (m >>= f)
  unfolding ◌>>=◌
  bind-Fails m f h = record { at = λ t. resume-Fails f h (m t) }

-- A call that fails has no answer.
pub Fails-ok : {A : Type 0} (m : Query A) (t u : Tables) (a : A) → Fails m → m t ≡ (ok a, u) → ⊥
Fails-ok m t u a h k = rw k at (h.at t)
