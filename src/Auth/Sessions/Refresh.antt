-- ===== src/Auth/Sessions/Refresh.antt =====
-- `AuthService.refresh`.
use practical_microservice.Common.{
  ℕ, ◌+◌, ◌≡◌, true, false, not, leb, ◌||◌, ◌∷◌, none, some, inl, inr, find, arith, is_some,
  Bool-cases, Option-cases,
}
use practical_microservice.Common.Calls.{Reply, ok, Client, in_memory, ◌>>=◌, Reply-cases}
use practical_microservice.Common.Rows.{update_first}
use practical_microservice.Auth.Errors.{AppError, PrismaError}
use practical_microservice.Auth.Tables.{rotated, AuthUser, RefreshToken, Tables, is_active, is_live}
use practical_microservice.Auth.Statement.{
  create_token, hash_has, token_has, user_has, update_token,
}
use practical_microservice.Auth.Statement.Cases.{
  create_token-cases, update_token-cases, IsTokenCreated, IsTokenUpdated,
}
use practical_microservice.Auth.Environment.{Outside, Request}
use practical_microservice.Auth.Repository.{
  rotate_refresh_token, find_user, find_refresh_token_by_hash, revoke_family, revoke_all_for_user,
  attempt,
}
use practical_microservice.Auth.Service.Views.{AuthTokens, claims_of}
use practical_microservice.Auth.Service.Requests.{
  refresh, refresh_stored, rotate, refuse_reuse, refuse_account, or_unauthorized,
}
use practical_microservice.Auth.Agreement.{Agrees-ok}
use practical_microservice.Auth.Agreement.Requests.{refresh-Agrees}

-- The token that is issued for an account in the family of the one presented.
abbrev pub successor : Outside → Request → RefreshToken → AuthUser → RefreshToken
successor o q stored account = record {
  id = q.token_id;
  auth_user_id = account.id;
  token_hash = o.sha256 q.token;
  family_id = stored.family_id;
  expires_at = q.now + o.options.refresh_token_ttl;
  revoked_at = none;
  revoked_reason = none;
  replaced_by_id = none;
}

-- A token that another has replaced.
abbrev pub replaced : ℕ → ℕ → RefreshToken → RefreshToken
replaced at by r = record r {
  revoked_at = some at;
  revoked_reason = some rotated;
  replaced_by_id = some by;
}

module _ (o : Outside) (q : Request) (t : Tables) (stored : RefreshToken)
    (tokens : AuthTokens) where
  abbrev with_successor : AuthUser → Tables
  with_successor account = record t { tokens = successor o q stored account ∷ t.tokens }

  abbrev rotated_tables : AuthUser → Tables
  rotated_tables account = record t {
    tokens =
        update_first (token_has stored.id) (replaced q.now q.token_id)
          (successor o q stored account ∷ t.tokens);
  }

  -- What `rotate` has done: the successor is there, and its predecessor is revoked in its favour.
  pub record IsRotated (account : AuthUser) (u : Tables) : Type 0 where
    pub created :
        IsTokenCreated t
          (successor o q stored account)
          (create_token (successor o q stored account) t)
    pub spent :
        IsTokenUpdated
          (with_successor account)
          stored.id
          is_live
          (replaced q.now q.token_id)
          (update_token stored.id is_live (replaced q.now q.token_id) (with_successor account))
    pub written : u ≡ rotated_tables account
    pub issued : tokens.refresh_token ≡ q.token
    pub signed :
        o.sign_access_token (claims_of account stored.family_id) q.now ≡ ok tokens.access_token

  pub record IsRefreshed (u : Tables) : Type 0 where
    pub live : is_live stored ≡ true
    pub unexpired : leb stored.expires_at q.now ≡ false
    pub account : AuthUser
    pub owner : find (user_has stored.auth_user_id) t.users ≡ some account
    pub active : is_active account.status ≡ true
    pub verified : account.verified ≡ true
    pub rotated : IsRotated account u

  rotate_ok :
      (account : AuthUser) (u : Tables)
      → rotate o in_memory q stored account t ≡ (ok tokens, u)
      → IsRotated account u
  unfolding rotate rotate_refresh_token attempt ◌>>=◌
  rotate_ok account u h = elim (create_token-cases t (successor o q stored account)) [
    | inr e ↦ absurd (ground arith)
    | inl c ↦
        elim (update_token-cases (with_successor account) stored.id is_live
          (replaced q.now q.token_id)) [
            | inr e ↦ absurd (ground arith)
            | inl k ↦
                elim (Reply-cases
                  (o.sign_access_token (claims_of account stored.family_id) q.now)) [
                    | inr e ↦ absurd (ground arith)
                    | inl (access, e) ↦
                        let issued : AuthTokens = record {
                          access_token = access;
                          refresh_token = q.token;
                        } in
                        let out : Reply AppError AuthTokens × Tables =
                          (ok issued, rotated_tables account) in
                        let same : out ≡ (ok tokens, u) = rw (c.result, k.result, e) at h in
                        record { created = c; spent = k; written = cc; issued = cc; signed = cc }
                  ]
          ]
  ]

  refresh_stored_ok :
      (u : Tables) → refresh_stored o in_memory q stored t ≡ (ok tokens, u) → IsRefreshed u
  unfolding refresh_stored refuse_reuse refuse_account find_user attempt or_unauthorized ◌>>=◌
      revoke_family revoke_all_for_user
  refresh_stored_ok u h = elim (Bool-cases (is_some stored.revoked_at)) [
    | inl e ↦ absurd (ground arith)
    | inr e ↦ elim (Bool-cases (leb stored.expires_at q.now)) [
      | inl k ↦ absurd (ground arith)
      | inr k ↦ elim (Option-cases (find (user_has stored.auth_user_id) t.users)) [
        | inl f ↦ absurd (ground arith)
        | inr (account, f) ↦
            elim (Bool-cases (not (is_active account.status) || not account.verified)) [
              | inl n ↦ absurd (ground arith)
              | inr n ↦ record {
                live = ground arith;
                unexpired = k;
                account = account;
                owner = f;
                active = ground arith;
                verified = ground arith;
                rotated = rotate_ok account u (
                    rw (refresh_stored, e, k, find_user, attempt, ◌>>=◌, f, or_unauthorized, n) at
                      h);
              }
            ]
      ]
    ]
  ]

-- `refresh` answers with tokens, over any client, only for a live, unexpired token of an active
-- and verified account; the answer is the new token and an access token signed for the account and
-- the family, and of the tables exactly this is written: the new token is added, for the account,
-- in the same family, live and with the configured lifetime, and the token presented is revoked at
-- that time, as rotated and replaced by the new one.
pub refresh-IsRefreshed :
    (o : Outside) (db : Client Tables PrismaError) (q : Request) (token : ℕ) (t u : Tables)
    (tokens : AuthTokens)
    → refresh o db q token t ≡ (ok tokens, u)
    → (stored : RefreshToken) × (find (hash_has (o.sha256 token)) t.tokens ≡ some stored)
      × IsRefreshed o q t stored tokens u
unfolding refresh find_refresh_token_by_hash attempt or_unauthorized ◌>>=◌
refresh-IsRefreshed o db q token t u tokens h =
    let k = Agrees-ok _ _ t u tokens (refresh-Agrees o db q token) h in
    elim (Option-cases (find (hash_has (o.sha256 token)) t.tokens)) [
      | inl e ↦ absurd (ground arith)
      | inr (stored, e) ↦ (
        stored,
        e,
        refresh_stored_ok o q t stored tokens u
            (rw (refresh, find_refresh_token_by_hash, attempt, ◌>>=◌, e, or_unauthorized) at k),
      )
    ]
