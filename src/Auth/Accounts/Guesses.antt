-- ===== src/Auth/Accounts/Guesses.antt =====
-- `consumeCode` of the auth service: how often a code can be guessed.
use practical_microservice.Common.{
  ℕ, ◌+◌, ◌≤◌, ◌<◌, ◌≡◌, refl, true, false, leb, List, [], ◌∷◌, none, some, ◌==◌, inl, inr, find,
  length, arith, Bool-cases, All,
}
use practical_microservice.Common.Calls.{ok, err, Client, in_memory, ◌>>=◌}
use practical_microservice.Common.Rows.{
  update_first, count-update_first, find-update_same, find_holds, find-none_of_count,
}
use practical_microservice.Common.Keys.{IsKeyed, IsKeyed-update_first, find_id}
use practical_microservice.Auth.Errors.{PrismaError, unauthorized, invalid_code}
use practical_microservice.Auth.Tables.{VerificationType, Verification, Tables, is_live_code}
use practical_microservice.Auth.Statement.{code_has, update_code}
use practical_microservice.Auth.Environment.{Outside, Request}
use practical_microservice.Auth.Repository.{
  guessed, find_active_verification, register_verification_attempt, attempt,
}
use practical_microservice.Auth.Service.{check_code, consume_code, or_invalid_code}
use practical_microservice.Auth.Agreement.{IsFailure}
use practical_microservice.Auth.Agreement.Requests.{consume_code-Agrees}
use practical_microservice.Auth.Invariant.Codes.{IsSingleCode, update-IsSingleCode}
use practical_microservice.Auth.Invariant.Writes.{guessed-EndsOnly}

module _ (o : Outside) (q : Request) (account : ℕ) (type : VerificationType) where
  -- Codes that are submitted one after the other.
  abbrev pub guess_all : List ℕ → Tables → Tables
  guess_all [] t = t
  guess_all (code ∷ codes) t = guess_all codes (consume_code o in_memory q account type code t).1

  abbrev pub IsWrong : ℕ → ℕ → Type 0
  IsWrong hash code = (hash == o.sha256 code) ≡ false

  record IsOpen (t : Tables) (v : Verification) : Type 0 where
    pub single : IsSingleCode t.verifications
    pub keyed : IsKeyed (λ x. x.id) t.verifications
    pub live : find (is_live_code account type) t.verifications ≡ some v
    pub unexpired : leb v.expires_at q.now ≡ false

  abbrev after_guess : Tables → Verification → Tables
  after_guess t v = record t {
    verifications =
        update_first (code_has v.id) (guessed (leb v.max_attempts (v.attempts + 1)))
          t.verifications;
  }

  wrong_code :
      (t : Tables) (v : Verification) (code : ℕ)
      → IsOpen t v
      → v.attempts < v.max_attempts
      → IsWrong v.code_hash code
      → consume_code o in_memory q account type code t
        ≡ (err (unauthorized invalid_code), after_guess t v)
  unfolding consume_code check_code find_active_verification register_verification_attempt attempt
      or_invalid_code update_code ◌>>=◌
  wrong_code t v code s left wrong =
      let below : leb v.max_attempts v.attempts ≡ false = ground arith in
      let row = find_id (λ x. x.id) (is_live_code account type) t.verifications v s.keyed s.live in
      rw (s.live, s.unexpired, below, wrong, row) refl

  right_code :
      (t : Tables) (v : Verification) (code : ℕ)
      → IsOpen t v
      → v.attempts < v.max_attempts
      → (v.code_hash == o.sha256 code) ≡ true
      → consume_code o in_memory q account type code t ≡ (ok v.id, t)
  unfolding consume_code check_code find_active_verification attempt or_invalid_code ◌>>=◌
  right_code t v code s left right =
      let below : leb v.max_attempts v.attempts ≡ false = ground arith in
      rw (s.live, s.unexpired, below, right) refl

  no_code :
      (t : Tables) (code : ℕ)
      → find (is_live_code account type) t.verifications ≡ none
      → consume_code o in_memory q account type code t ≡ (err (unauthorized invalid_code), t)
  unfolding consume_code find_active_verification attempt or_invalid_code ◌>>=◌
  no_code t code h = rw h refl

  same_row :
      (t : Tables) (v : Verification) → IsOpen t v → find (code_has v.id) t.verifications ≡ some v
  same_row t v s = find_id (λ x. x.id) (is_live_code account type) t.verifications v s.keyed s.live

  after_guess-IsOpen :
      (t : Tables) (v : Verification)
      → IsOpen t v
      → leb v.max_attempts (v.attempts + 1) ≡ false
      → IsOpen (after_guess t v) (guessed false v)
  after_guess-IsOpen t v s more = rw more (record {
    single =
        update-IsSingleCode v.id (guessed false) t.verifications (guessed-EndsOnly false) s.single;
    keyed =
        IsKeyed-update_first (λ x. x.id) (code_has v.id) (guessed false) t.verifications (λ r. refl)
          s.keyed;
    live =
        find-update_same (is_live_code account type) (code_has v.id) (guessed false) t.verifications
          v s.live (same_row t v s)
          (find_holds (is_live_code account type) t.verifications v s.live);
    unexpired = s.unexpired;
  })

  burned :
      (t : Tables) (v : Verification)
      → IsOpen t v
      → leb v.max_attempts (v.attempts + 1) ≡ true
      → find (is_live_code account type) (after_guess t v).verifications ≡ none
  burned t v s last =
      let holds = find_holds (is_live_code account type) t.verifications v s.live in
      let c =
        count-update_first (code_has v.id) (is_live_code account type) (guessed true)
          t.verifications v (same_row t v s) in
      rw last (
        find-none_of_count (is_live_code account type) _ (ground (arith, c, s.single account type)))

  no_code_left :
      (codes : List ℕ) (t : Tables)
      → find (is_live_code account type) t.verifications ≡ none
      → find (is_live_code account type) (guess_all codes t).verifications ≡ none
  no_code_left [] t h = h
  no_code_left (code ∷ codes) t h = rw (no_code t code h, guess_all) (no_code_left codes t h)

  -- After as many wrong codes as were left none is live; before, the code is as it was.
  record IsCounted (t : Tables) (v : Verification) (n : ℕ) : Type 0 where
    pub gone :
        v.max_attempts ≤ v.attempts + n → find (is_live_code account type) t.verifications ≡ none
    pub row :
        v.attempts + n < v.max_attempts
        → (w : Verification) × IsOpen t w
          × (w.id ≡ v.id)
          × (w.code_hash ≡ v.code_hash)
          × (w.attempts < w.max_attempts)

  guess_all-IsCounted :
      (codes : List ℕ) (t : Tables) (v : Verification)
      → IsOpen t v
      → v.attempts < v.max_attempts
      → All (IsWrong v.code_hash) codes
      → IsCounted (guess_all codes t) v (length codes)
  guess_all-IsCounted [] t v s left h = record {
    gone = λ k. absurd (omega arith);
    row = λ k. (v, s, refl, refl, left);
  }
  guess_all-IsCounted (code ∷ codes) t v s left (wrong, h) =
      rw (wrong_code t v code s left wrong)
        (elim (Bool-cases (leb v.max_attempts (v.attempts + 1))) [
          | inl e ↦ record {
            gone = λ k. no_code_left codes (after_guess t v) (burned t v s e);
            row = λ k. absurd (ground arith);
          }
          | inr e ↦
              let rest =
                guess_all-IsCounted codes (after_guess t v) (guessed false v)
                  (after_guess-IsOpen t v s e) (ground arith) h in
              record { gone = λ k. rest.gone (omega arith); row = λ k. rest.row (omega arith) }
        ])

module _ (o : Outside) (q : Request) (account : ℕ) (type : VerificationType) (t : Tables)
    (v : Verification) (codes : List ℕ) (single : IsSingleCode t.verifications)
    (keyed : IsKeyed (λ x. x.id) t.verifications)
    (live : find (is_live_code account type) t.verifications ≡ some v)
    (early : q.now < v.expires_at) (left : v.attempts < v.max_attempts)
    (wrong : All (IsWrong o q account type v.code_hash) codes) where
  abbrev guessed_tables : Tables
  guessed_tables = guess_all o q account type codes t

  counted : IsCounted o q account type guessed_tables v (length codes)
  counted =
      guess_all-IsCounted o q account type codes t v
        (record { single = single; keyed = keyed; live = live; unexpired = ground arith }) left
        wrong

  -- When as many wrong codes have been submitted as the account's one live and unexpired code had
  -- attempts left, every later code is refused, the right one too, at any time and over any client.
  pub consume_code-IsBurned :
      v.max_attempts ≤ v.attempts + length codes
      → (db : Client Tables PrismaError) (later : Request) (code : ℕ)
      → IsFailure (consume_code o db later account type code guessed_tables)
  consume_code-IsBurned enough db later code =
      elim ((consume_code-Agrees o db later account type code).at guessed_tables) [
        | inl e ↦ rw (e, no_code o later account type guessed_tables code (counted.gone enough)) tt
        | inr e ↦ e
      ]

  -- After fewer wrong codes than the account's one live and unexpired code had attempts left, the
  -- right code is accepted, and answers with the id of that code.
  pub consume_code-IsAccepted :
      v.attempts + length codes < v.max_attempts
      → (code : ℕ) → o.sha256 code ≡ v.code_hash
      → consume_code o in_memory q account type code guessed_tables ≡ (ok v.id, guessed_tables)
  consume_code-IsAccepted few code right =
      let (w, open_row, same_id, same_hash, below) = counted.row few in
      rw (← same_id)
        (right_code o q account type guessed_tables w code open_row below (ground arith))
