-- ===== src/Gateway/Identity.antt =====
-- Who is calling: api-gateway/src/lib/tokens.ts, middlewares/authenticate.ts,
-- middlewares/request-context.ts and middlewares/body-limit.ts.
use practical_microservice.Common.{
  ℕ, Bool, false, not, leb, ◌||◌, String, str_eq, List, [], ◌∷◌, Option, none, some, if◌then◌else◌,
}
use practical_microservice.Gateway.Edge.{
  AuthContext, EdgeRequest, unauthorized, forbidden, body_too_large, Step, passed, rejected,
  Handler,
}

-- The claims of a verified token that are strings.
pub record Payload : Type 0 where
  pub sub : Option String
  pub email : Option String
  pub username : Option String
  pub role : Option String
  pub sid : Option String

pub record AccessTokenClaims : Type 0 where
  pub sub : String
  pub email : String
  pub username : String
  pub role : String
  pub sid : String

infixl 5 ◌>>=◌
abbrev ◌>>=◌ : {A B : Type 0} → Option A → (A → Option B) → Option B
none >>= f = none
some a >>= f = f a

-- The configuration, the string functions of the runtime, and the libraries that verify a token
-- and count requests.
pub record Outside : Type 0 where
  pub trust_client_actor : Bool
  pub max_body_bytes : ℕ
  pub to_lower_case : String → String
  pub trim : String → String
  pub first_120 : String → String
  pub jwt_verify : String → Option Payload
  pub within_rate : EdgeRequest → Bool
  pub within_credential_rate : EdgeRequest → Bool

module _ (o : Outside) where
  unfoldable pub extract_bearer_token : Option (List String) → Option String
  extract_bearer_token (some (scheme ∷ token ∷ [])) =
      if not (str_eq (o.to_lower_case scheme) "bearer") || str_eq token "" then none else some token
  extract_bearer_token _ = none

  abbrev pub claims_of : Payload → Option AccessTokenClaims
  claims_of payload = do
    sub ← payload.sub
    email ← payload.email
    username ← payload.username
    role ← payload.role
    sid ← payload.sid
    some (record { sub = sub; email = email; username = username; role = role; sid = sid })

  abbrev pub checked : Option Payload → Option AccessTokenClaims
  checked none = none
  checked (some payload) = claims_of payload

  unfoldable pub verify_access_token : String → Option AccessTokenClaims
  verify_access_token token = checked (o.jwt_verify token)

  abbrev pub context_of : AccessTokenClaims → AuthContext
  context_of claims = record {
    auth_user_id = claims.sub;
    email = claims.email;
    username = claims.username;
    role = claims.role;
    session_id = claims.sid;
  }

  abbrev pub identified : AccessTokenClaims → EdgeRequest → EdgeRequest
  identified claims req = record req {
    auth = some (context_of claims);
    actor = some claims.sub;
    actor_header = some claims.sub;
  }

  abbrev pub with_claims : EdgeRequest → Option AccessTokenClaims → Step
  with_claims req none = rejected unauthorized
  with_claims req (some claims) = passed (identified claims req)

  abbrev pub with_token : EdgeRequest → Option String → Step
  with_token req none = rejected unauthorized
  with_token req (some token) = with_claims req (verify_access_token token)

  unfoldable pub authenticate : Handler
  authenticate req = with_token req (extract_bearer_token req.authorization)

  abbrev pub includes : String → List String → Bool
  includes role [] = false
  includes role (r ∷ roles) = str_eq r role || includes role roles

  abbrev pub with_role : List String → EdgeRequest → Option AuthContext → Step
  with_role roles req none = rejected unauthorized
  with_role roles req (some caller) =
      if not (includes caller.role roles) then rejected forbidden else passed req

  unfoldable pub require_role : List String → Handler
  require_role roles req = with_role roles req req.auth

  abbrev pub trimmed : Option String → Option String
  trimmed none = none
  trimmed (some claimed) = if str_eq (o.trim claimed) "" then none else some (o.trim claimed)

  abbrev pub with_actor : EdgeRequest → Option String → EdgeRequest
  with_actor req none = record req { actor_header = none }
  with_actor req (some claimed) = record req {
    actor = some (o.first_120 claimed);
    actor_header = some (o.first_120 claimed);
  }

  unfoldable pub request_context : Handler
  request_context req =
      passed (with_actor req (if o.trust_client_actor then trimmed req.actor_header else none))

  abbrev pub with_length : EdgeRequest → Option ℕ → Step
  with_length req none = passed req
  with_length req (some bytes) =
      if leb bytes o.max_body_bytes then passed req else rejected body_too_large

  unfoldable pub body_limit : Handler
  body_limit req = with_length req req.content_length
