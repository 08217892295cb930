-- ===== src/Auth/Sessions/Reuse.antt =====
-- `AuthService.refresh`: a token that was replaced ends its session when it is presented again.
use practical_microservice.Common.{
  ℕ, ◌≡◌, refl, true, false, ◌&&◌, some, ◌==◌, inl, inr, find, arith, is_some,
}
use practical_microservice.Common.Calls.{ok, err, Client, in_memory, ◌>>=◌}
use practical_microservice.Common.Rows.{
  count, update_where, count-update_where_none, find-update_same, find_holds,
}
use practical_microservice.Common.Keys.{IsKeyed, find_id, has_not}
use practical_microservice.Auth.Errors.{PrismaError, unauthorized, session_ended}
use practical_microservice.Auth.Tables.{RefreshToken, Tables, is_live, is_live_in, reuse_detected}
use practical_microservice.Auth.Statement.{hash_has, token_has, is_token_in, revoke, revoke_tokens}
use practical_microservice.Auth.Environment.{Outside, Request}
use practical_microservice.Auth.Repository.{
  rotated_to, find_refresh_token_by_hash, revoke_family, attempt,
}
use practical_microservice.Auth.Service.Views.{AuthTokens}
use practical_microservice.Auth.Service.Requests.{
  refresh, refresh_stored, refuse_reuse, or_unauthorized,
}
use practical_microservice.Auth.Agreement.{IsFailure}
use practical_microservice.Auth.Agreement.Requests.{refresh-Agrees}
use practical_microservice.Auth.Sessions.Refresh.{refresh-IsRefreshed, IsRefreshed, successor}

module _ (o : Outside) (token : ℕ) where
  -- Presenting the token is refused, over any client, and over one that accepts every transaction
  -- no token of the family is left that could be presented.
  pub record EndsSession (q : Request) (family : ℕ) (u : Tables) : Type 1 where
    pub after : Tables
    pub answer : refresh o in_memory q token u ≡ (err (unauthorized session_ended), after)
    pub gone : count (is_live_in family) after.tokens ≡ 0
    pub refused : (db : Client Tables PrismaError) → IsFailure (refresh o db q token u)

  -- The tables once the family is revoked.
  abbrev ended : Request → ℕ → Tables → Tables
  ended q family u = record u {
    tokens =
        update_where (λ r. is_token_in family r && is_live r) (revoke q.now reuse_detected)
          u.tokens;
  }

  reuse-answer :
      (q : Request) (u : Tables) (stored : RefreshToken)
      → find (hash_has (o.sha256 token)) u.tokens ≡ some stored
      → is_live stored ≡ false
      → refresh o in_memory q token u
        ≡ (err (unauthorized session_ended), ended q stored.family_id u)
  unfolding refresh refresh_stored refuse_reuse find_refresh_token_by_hash revoke_family attempt
      revoke_tokens or_unauthorized ◌>>=◌
  reuse-answer q u stored found dead =
      let revoked : is_some stored.revoked_at ≡ true = ground arith in rw (found, revoked) refl

  -- A token that has been revoked ends its session when it is presented: the answer is a 401 for
  -- any client, whatever its transactions do, and where they are accepted no token of the family
  -- can be presented any more, the newest one included.
  pub refresh-EndsSession :
      (q : Request) (u : Tables) (stored : RefreshToken)
      → find (hash_has (o.sha256 token)) u.tokens ≡ some stored
      → is_live stored ≡ false
      → EndsSession q stored.family_id u
  refresh-EndsSession q u stored found dead = record {
    after = ended q stored.family_id u;
    answer = reuse-answer q u stored found dead;
    gone =
        count-update_where_none _ (is_live_in stored.family_id) (revoke q.now reuse_detected)
          u.tokens (λ r h. ground arith) (λ r h. h);
    refused = λ db. elim ((refresh-Agrees o db q token).at u) [
      | inl e ↦ rw (e, reuse-answer q u stored found dead) tt
      | inr e ↦ e
    ];
  }

  -- The rows of the token presented and of the new one, after a rotation.
  spent-found :
      (q : Request) (t u : Tables) (stored : RefreshToken) (tokens : AuthTokens)
      → IsKeyed (λ r. r.id) t.tokens
      → find (hash_has (o.sha256 token)) t.tokens ≡ some stored
      → (k : IsRefreshed o q t stored tokens u)
      → (find (hash_has (o.sha256 token)) u.tokens ≡ some (rotated_to q.now q.token_id stored))
        × (find (hash_has (o.sha256 tokens.refresh_token)) u.tokens
            ≡ some (successor o q stored k.account))
  spent-found q t u stored tokens keyed found k =
      let rotated = k.rotated in
      let same_row : find (token_has stored.id) t.tokens ≡ some stored =
        find_id (λ r. r.id) (hash_has (o.sha256 token)) t.tokens stored keyed found in
      let other_id : token_has q.token_id stored ≡ false =
        has_not (λ r. r.id) (hash_has (o.sha256 token)) q.token_id t.tokens stored
          rotated.created.fresh found in
      let other_hash : hash_has (o.sha256 q.token) stored ≡ false =
        has_not (λ r. r.token_hash) (hash_has (o.sha256 token)) (o.sha256 q.token) t.tokens stored
          rotated.created.unused found in
      let presented = find_holds (hash_has (o.sha256 token)) t.tokens stored found in
      let spent =
        find-update_same (hash_has (o.sha256 token)) (token_has stored.id)
          (rotated_to q.now q.token_id) t.tokens stored found same_row presented in
      let kept : (token_has stored.id (successor o q stored k.account)) ≡ false = ground arith in
      let other : (o.sha256 q.token == o.sha256 token) ≡ false = ground arith in
      rw (rotated.written, rotated.issued, kept) (ground (arith, spent, other), ground arith)

  -- A refresh token works once: on tables with unique token ids, when `refresh` has answered with
  -- new tokens, over any client, presenting the same token again on the tables that it left is
  -- refused over any client, and where transactions are accepted this also ends the session of
  -- whoever holds the new token: no token of its family can be presented any more.
  pub refresh-IsSingleUse :
      (db : Client Tables PrismaError) (q again : Request) (t u : Tables) (tokens : AuthTokens)
      → IsKeyed (λ r. r.id) t.tokens
      → refresh o db q token t ≡ (ok tokens, u)
      → (issued : RefreshToken) × (find (hash_has (o.sha256 tokens.refresh_token)) u.tokens
          ≡ some issued)
        × EndsSession again issued.family_id u
  refresh-IsSingleUse db q again t u tokens keyed h =
      let (stored, found, k) = refresh-IsRefreshed o db q token t u tokens h in
      let (spent, issued) = spent-found q t u stored tokens keyed found k in
      (
        successor o q stored k.account,
        issued,
        refresh-EndsSession again u (rotated_to q.now q.token_id stored) spent refl,
      )
