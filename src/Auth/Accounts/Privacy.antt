-- ===== src/Auth/Accounts/Privacy.antt =====
-- `AuthService.resendVerification` and `forgotPassword`: what their answers tell.
use practical_microservice.Common.{
  ℕ, ◌+◌, ◌≡◌, refl, ◌∙◌, Bool, true, false, ◌∷◌, Option, none, some, inl, inr, find, any,
  Bool-cases,
}
use practical_microservice.Common.Calls.{
  ok, in_memory, ◌>>=◌, Reply-cases, either_way, outcome, answered, failed,
}
use practical_microservice.Common.Rows.{update_where}
use practical_microservice.Common.Keys.{any-update_where}
use practical_microservice.Auth.Tables.{
  VerificationType, email_verification, password_reset, AuthUser, Tables, is_live_code,
}
use practical_microservice.Auth.Statement.{code_has, revoke_codes, revoked_code, create_code}
use practical_microservice.Auth.Environment.{Outside, Request, Mail}
use practical_microservice.Auth.Repository.{
  NewVerificationRecord, code_row, find_user, attempt, replace_verification,
  find_active_verification, attach_verification_email,
}
use practical_microservice.Auth.Service.{email_is, mail_of, dispatch_code, issue_code}
use practical_microservice.Auth.Service.Requests.{
  is_cooling, issue_unless_cooling, issue_to, wants_code, is_usable, resend_verification,
  forgot_password,
}

module _ (o : Outside) (q : Request) where
  dispatch_code-ok :
      (id : ℕ) (mail : Mail) (t : Tables)
      → (sent : Bool) × (u : Tables) × (dispatch_code o in_memory q id mail t ≡ (ok sent, u))
  unfolding dispatch_code either_way
  dispatch_code-ok id mail t = elim (Reply-cases (o.enqueue mail)) [
    | inr (e, h) ↦ (false, t, rw (dispatch_code, h) refl)
    | inl (message, h) ↦ elim (outcome (attach_verification_email in_memory id message t)) [
      | answered row u k ↦ (true, u, rw (dispatch_code, h, either_way, k) refl)
      | failed e u k ↦ (true, u, rw (dispatch_code, h, either_way, k) refl)
    ]
  ]

  module _ (t : Tables) (fresh : any (code_has q.code_id) t.verifications ≡ false) where
    abbrev replaced : NewVerificationRecord → Tables
    replaced new = record t {
      verifications =
          code_row q.code_id q.now new
          ∷ update_where (is_live_code new.auth_user_id new.type) revoked_code t.verifications;
    }

    replaced-ok :
        (new : NewVerificationRecord)
        → replace_verification in_memory q.code_id q.now new t
          ≡ (ok (code_row q.code_id q.now new), replaced new)
    unfolding replace_verification attempt revoke_codes create_code ◌>>=◌
    replaced-ok new =
        let still =
          any-update_where (λ v. v.id) (is_live_code new.auth_user_id new.type) revoked_code
            q.code_id t.verifications (λ r. refl) in
        rw (still ∙ fresh) refl

    issue_code-ok :
        (u : AuthUser) (type : VerificationType) → (issue_code o in_memory q u type t).0 ≡ ok tt
    unfolding issue_code ◌>>=◌
    issue_code-ok u type =
        let new : NewVerificationRecord = record {
          auth_user_id = u.id;
          code_hash = o.sha256 q.code;
          type = type;
          expires_at = q.now + o.options.verification_ttl;
          max_attempts = o.options.verification_max_attempts;
        } in
        let (sent, after, h) =
          dispatch_code-ok q.code_id (mail_of o in_memory q type u.email) (replaced new) in
        rw (replaced-ok new, h) refl

    issue_unless_cooling-ok :
        (type : VerificationType) (u : AuthUser)
        → (issue_unless_cooling o in_memory q type u t).0 ≡ ok tt
    unfolding issue_unless_cooling find_active_verification attempt ◌>>=◌
    issue_unless_cooling-ok type u =
        elim (Bool-cases
          (is_cooling o in_memory q (find (is_live_code u.id type) t.verifications))) [
            | inl e ↦ rw e refl
            | inr e ↦ rw e (issue_code-ok u type)
          ]

    issue_to-ok :
        (type : VerificationType) (u : Option AuthUser)
        → (issue_to o in_memory q type u t).0 ≡ ok tt
    issue_to-ok type none = refl
    issue_to-ok type (some u) = issue_unless_cooling-ok type u

    -- Where transactions are accepted and the id of a new code is not taken, asking for a new
    -- verification code or for a password reset has the same answer for every address: whether an
    -- account has it, whether it is verified or active, whether a code was sent shortly before and
    -- whether the mail was queued cannot be told from it.
    pub forgot_password-tells_nothing :
        (email : ℕ)
        → ((forgot_password o in_memory q email t).0 ≡ ok tt)
          × ((resend_verification o in_memory q email t).0 ≡ ok tt)
    unfolding forgot_password resend_verification find_user attempt ◌>>=◌
    forgot_password-tells_nothing email = (
      issue_to-ok password_reset (is_usable o in_memory q (find (email_is email) t.users)),
      issue_to-ok email_verification (wants_code o in_memory q (find (email_is email) t.users)),
    )
