-- ===== src/Cart/Service/Release.antt =====
-- `releaseSession` under its two locks.
use practical_microservice.Common.{ℕ, ◌≡◌, inl, inr, refl, ◌∙◌, List, Option, some, arith}
use practical_microservice.Cart.Types.{CartLine, ReleaseOutcome}
use practical_microservice.Cart.Store.{Keys}
use practical_microservice.Cart.Calls.{World, Reply, ok, err, Backend, ◌>>=◌, pure, resume}
use practical_microservice.Cart.Repository.{
  Settings, LockKey, write_lock, release_lock, lock_release, with_lock, take_held_lines,
}
use practical_microservice.Cart.Service.{release_taken, release_session, or_locked}
use practical_microservice.Cart.Service.Request.{with_token}
use practical_microservice.Cart.Service.Locked.{with_lock-stable}
use practical_microservice.Cart.Service.Handback.{IsReleased, IsRelease, owed, take-IsRelease}

lock_release-items :
    (key : LockKey) (token : ℕ) (keys : Keys) → (lock_release key token keys).1.items ≡ keys.items
unfolding lock_release
lock_release-items write_lock token keys = ground arith
lock_release-items release_lock token keys = ground arith

lock_release-due :
    (key : LockKey) (token : ℕ) (keys : Keys) → (lock_release key token keys).1.due ≡ keys.due
unfolding lock_release
lock_release-due write_lock token keys = ground arith
lock_release-due release_lock token keys = ground arith

module _ (b : Backend) (session : ℕ) (lines : List CartLine) (w : World) where
  lock_release-IsRelease :
      (key : LockKey) (token : ℕ) (r : Reply ReleaseOutcome) (u : World)
      → IsRelease b session lines w (r, u)
      → IsRelease b session lines w (r, record u { keys = (lock_release key token u.keys).1 })
  lock_release-IsRelease key token (ok outcome) u (inl (a, c, d, f)) =
      inl (a, lock_release-items key token u.keys ∙ c, lock_release-due key token u.keys ∙ d, f)
  lock_release-IsRelease key token (ok outcome) u (inr (inl (a, c, d, f))) =
      inr
        (inl (a, lock_release-items key token u.keys ∙ c, lock_release-due key token u.keys ∙ d, f))
  lock_release-IsRelease key token (ok outcome) u (inr (inr (inl (a, none_owed, c, d, f)))) = inr (
      inr (
        inl (
          a,
          none_owed,
          lock_release-items key token u.keys ∙ c,
          lock_release-due key token u.keys ∙ d,
          f,
        )))
  lock_release-IsRelease key token (ok outcome) u (inr (inr (inr (a, c, d)))) =
      inr (inr (inr (a, lock_release-items key token u.keys ∙ c, d)))
  lock_release-IsRelease key token (err e) u (a, c) = (lock_release-items key token u.keys ∙ a, c)

  -- What the work under a lock comes to for the caller.
  abbrev IsInner : Reply (Option ReleaseOutcome) × World → Type 0
  IsInner (ok outcome, u) = IsReleased b session lines w (or_locked (some outcome)) u
  IsInner (err e, u) = IsRelease b session lines w (err e, u)

  abbrev IsOuter : Reply (Option (Option ReleaseOutcome)) × World → Type 0
  IsOuter (ok outcome, u) = IsReleased b session lines w (or_locked outcome) u
  IsOuter (err e, u) = IsRelease b session lines w (err e, u)

  lock_release-IsInner :
      (key : LockKey) (token : ℕ) (r : Reply (Option ReleaseOutcome)) (u : World)
      → IsInner (r, u)
      → IsInner (r, record u { keys = (lock_release key token u.keys).1 })
  lock_release-IsInner key token (ok outcome) u h =
      lock_release-IsRelease key token (ok (or_locked (some outcome))) u h
  lock_release-IsInner key token (err e) u h = lock_release-IsRelease key token (err e) u h

module _ (b : Backend) (s : Settings) (session : ℕ) where
  answered :
      (lines : List CartLine) (w : World) (r : Reply (Option (Option ReleaseOutcome))) (u : World)
      → IsOuter b session lines w (r, u)
      → IsRelease b session lines w (resume (λ outcome. pure (or_locked outcome)) (r, u))
  unfolding pure
  answered lines w (ok outcome) u h = h
  answered lines w (err e) u h = h

  pub release_session-IsRelease :
      (release_token write_token : ℕ) (w : World)
      → IsRelease b session
          (owed b s session w)
          w
          (release_session b s session release_token write_token w)
  unfolding release_session ◌>>=◌
  release_session-IsRelease release_token write_token w =
      let lines = owed b s session w in
      let outer_world = with_token release_lock release_token w in
      let work = take_held_lines b s >>= release_taken b s session in
      let inner = with_lock b write_lock write_token s.lock_retries work in
      let under_both : IsInner b session lines w (inner outer_world) =
        with_lock-stable b write_lock write_token s.lock_retries (IsRelease b session lines w)
          (lock_release-IsRelease b session lines w write_lock write_token)
          (IsInner b session lines w) (λ a u h. h) (λ e u h. h) work outer_world
          (λ e. (refl, inl (λ r p. refl))) (inr (inr (inr (refl, refl, λ r p. refl))))
          (take-IsRelease b s session (with_token write_lock write_token outer_world)) in
      let all = with_lock b release_lock release_token 0 inner w in
      answered lines w all.0 all.1 (
        with_lock-stable b release_lock release_token 0 (IsInner b session lines w)
          (lock_release-IsInner b session lines w release_lock release_token)
          (IsOuter b session lines w) (λ a u h. h) (λ e u h. h) inner w
          (λ e. (refl, inl (λ r p. refl))) (inr (inr (inr (refl, refl, λ r p. refl)))) under_both)
