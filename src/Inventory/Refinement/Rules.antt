-- ===== src/Inventory/Refinement/Rules.antt =====
-- `Follows` and `Agrees` through the ways in which transactions and actions are built.
use practical_microservice.Common.{
  ◌≡◌, refl, ◌⊎◌, inl, inr, Bool, true, false, if◌then◌else◌, arith, ℕ,
}
use practical_microservice.Inventory.Transaction.{
  Tx, Action, Result, ok, err, prisma, refused, ◌>>=◌, resume, bind, continue, give,
}
use practical_microservice.Inventory.Tables.{Tables}
use practical_microservice.Inventory.Database.{Database, Follows, Agrees, memory}
use practical_microservice.Inventory.Repository.{or_duplicate}

module _ {A : Type 0} where
  pub Follows-refl : (m : Tx A) → Follows m m
  Follows-refl m = record { at = λ t. inl refl }

  pub Follows-if :
      (b : Bool) (m m' n n' : Tx A)
      → Follows m m'
      → Follows n n'
      → Follows (if b then m else n) (if b then m' else n')
  Follows-if true m m' n n' hm hn = hm
  Follows-if false m m' n n' hm hn = hn

  pub Follows-or_duplicate :
      (message : ℕ) (m m' : Tx A)
      → Follows m m'
      → Follows (or_duplicate message m) (or_duplicate message m')
  unfolding or_duplicate
  Follows-or_duplicate message m m' h = record { at = λ t. ground (arith, h.at t) }

  pub Agrees-refl : (m : Action A) → Agrees m m
  Agrees-refl m = record { at = λ t. inl refl }

  pub Agrees-if :
      (b : Bool) (m m' n n' : Action A)
      → Agrees m m'
      → Agrees n n'
      → Agrees (if b then m else n) (if b then m' else n')
  Agrees-if true m m' n n' hm hn = hm
  Agrees-if false m m' n n' hm hn = hn

  pub Agrees-transaction :
      (db : Database) (m m' : Tx A)
      → Follows m m'
      → Agrees (db.transaction A m) (memory.transaction A m')
  Agrees-transaction db m m' h = record {
    at = λ t. ground (arith, h.at t, (db.transaction_lem A m).at t);
  }

module _ {A B : Type 0} where
  Follows-rest :
      (k k' : A → Tx B) (r : Result (A × Tables))
      → ((a : A) → Follows (k a) (k' a))
      → (resume k r ≡ resume k' r) ⊎ (resume k r ≡ err (prisma refused))
  Follows-rest k k' (ok (a, t)) h = (h a).at t
  Follows-rest k k' (err e) h = inl refl

  pub Follows-bind :
      (m m' : Tx A) (k k' : A → Tx B)
      → Follows m m'
      → ((a : A) → Follows (k a) (k' a))
      → Follows (m >>= k) (m' >>= k')
  unfolding ◌>>=◌
  Follows-bind m m' k k' hm hk = record {
    at = λ t. elim (hm.at t) [
      | inl e ↦ rw (e, ◌>>=◌) (Follows-rest k k' (m' t) hk)
      | inr e ↦ inr (rw (e, ◌>>=◌))
    ];
  }

  continue-Agrees :
      (k k' : A → Action B) (r : Result A) (t : Tables)
      → ((a : A) → Agrees (k a) (k' a))
      → (continue k r t ≡ continue k' r t) ⊎ (continue k r t ≡ (err (prisma refused), t))
  continue-Agrees k k' (ok a) t h = (h a).at t
  continue-Agrees k k' (err e) t h = inl refl

  -- The first action only reads.
  pub Agrees-bind_read :
      (m m' : Action A) (k k' : A → Action B)
      → ((t : Tables) → (m' t).1 ≡ t)
      → Agrees m m'
      → ((a : A) → Agrees (k a) (k' a))
      → Agrees (bind m k) (bind m' k')
  unfolding bind
  Agrees-bind_read m m' k k' reads hm hk = record {
    at = λ t. elim (hm.at t) [
      | inl e ↦ rw (e, bind) (rw (reads t) (continue-Agrees k k' (m' t).0 t hk))
      | inr e ↦ inr (rw (e, bind))
    ];
  }

  -- What follows only computes.
  pub Agrees-bind-give :
      (m m' : Action A) (f : A → B)
      → Agrees m m'
      → Agrees (bind m (λ a. give (f a))) (bind m' (λ a. give (f a)))
  unfolding bind
  Agrees-bind-give m m' f hm = record {
    at = λ t. elim (hm.at t) [ inl e ↦ inl (rw (e, bind)) | inr e ↦ inr (rw (e, bind)) ];
  }

pub ruleset follows_rules = (Follows-refl, Follows-if, Follows-or_duplicate, Follows-bind)
