-- ===== src/Auth/Invariant/Keeps.antt =====
-- What a transaction leaves behind, whether it is committed or not.
use practical_microservice.Common.{inl, inr}
use practical_microservice.Common.Calls.{Reply, ok, err, settle, resume, ◌>>=◌, Client}
use practical_microservice.Auth.Errors.{PrismaError}
use practical_microservice.Auth.Tables.{Tables}
use practical_microservice.Auth.Statement.{Tx}
use practical_microservice.Auth.Repository.{attempt, statement}

module _ {A : Type 0} (P : Tables → Type 0) where
  -- What is committed satisfies `P`.
  abbrev pub Lands : Reply PrismaError A × Tables → Type 0
  Lands (ok a, u) = P u
  Lands (err e, u) = Unit {0}

  settle-Lands : (r : Reply PrismaError A × Tables) (t : Tables) → Lands r → P t → P (settle r t).1
  settle-Lands (ok a, u) t h k = h
  settle-Lands (err e, u) t h k = k

  pub statement-Lands :
      (db : Client Tables PrismaError) (m : Tx A) (t : Tables)
      → Lands (m t)
      → P t
      → P (statement db m t).1
  unfolding attempt
  statement-Lands db m t h k = elim (db.run_lem A m t) [
    | inl e ↦ rw e (settle-Lands (m t) t h k)
    | inr (x, e) ↦ rw e k
  ]

module _ {A B : Type 0} (P : Tables → Type 0) where
  resume-Lands :
      (f : A → Tx B) (r : Reply PrismaError A × Tables)
      → Lands P r
      → ((a : A) (u : Tables) → P u → Lands P (f a u))
      → Lands P (resume f r)
  resume-Lands f (ok a, u) h k = k a u h
  resume-Lands f (err e, u) h k = tt

  pub bind-Lands :
      (m : Tx A) (f : A → Tx B) (t : Tables)
      → Lands P (m t)
      → ((a : A) (u : Tables) → P u → Lands P (f a u))
      → Lands P ((m >>= f) t)
  unfolding ◌>>=◌
  bind-Lands m f t h k = resume-Lands f (m t) h k
