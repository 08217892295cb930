-- ===== src/Gateway/Proven.antt =====
-- What an upstream may believe of a request that the gateway sends it.
use practical_microservice.Common.{
  ◌≡◌, refl, inl, inr, Bool, String, List, [], ◌∷◌, ◌++◌, Option, none, some, Bool-cases,
  Option-cases,
}
use practical_microservice.Gateway.Edge.{
  AuthContext, email, EdgeRequest, Step, passed, rejected, proxied, Handler, resume, run_chain,
}
use practical_microservice.Gateway.Identity.{
  AccessTokenClaims, Outside, extract_bearer_token, verify_access_token, context_of, authenticate,
  require_role, includes, with_role,
}
use practical_microservice.Gateway.Policy.{
  ServiceRoute, RoutePolicy, covers_method, covers_path, create_policy_handler, starts_with,
  create_service_proxy, limited,
}

resume-resume :
    (f g h : Handler) (step : Step)
    → ((req : EdgeRequest) → f req ≡ resume g (h req))
    → resume f step ≡ resume g (resume h step)
resume-resume f g h (passed req) same = same req
resume-resume f g h (rejected e) same = refl
resume-resume f g h (proxied name req) same = refl

run_chain-++ :
    (xs ys : List Handler) (req : EdgeRequest)
    → run_chain (xs ++ ys) req ≡ resume (run_chain ys) (run_chain xs req)
unfolding run_chain
run_chain-++ [] ys req = refl
run_chain-++ (x ∷ xs) ys req =
    resume-resume (run_chain (xs ++ ys)) (run_chain ys) (run_chain xs) (x req) (run_chain-++ xs ys)

module _ (o : Outside) where
  -- The bearer token of a request verifies, with these claims.
  pub record IsVerified (req : EdgeRequest) (claims : AccessTokenClaims) : Type 0 where
    pub token : String
    pub extracted : extract_bearer_token o req.authorization ≡ some token
    pub verified : verify_access_token o token ≡ some claims

  -- What is said of the caller is nothing, or what a verified token says.
  pub data IsHonest (req : EdgeRequest) : Type 0 where
    anonymous : req.auth ≡ none → req.actor_header ≡ none → IsHonest req
    proven :
        (claims : AccessTokenClaims)
        → IsVerified req claims
        → req.auth ≡ some (context_of o claims)
        → req.actor_header ≡ some claims.sub
        → IsHonest req

  pub record IsAdmin (req : EdgeRequest) : Type 0 where
    pub claims : AccessTokenClaims
    pub verified : IsVerified req claims
    pub role : claims.role ≡ "ADMIN"
    pub header : req.actor_header ≡ some claims.sub

  abbrev pub IsFair : Step → Type 0
  IsFair (passed req) = IsHonest req
  IsFair (rejected error) = Unit {0}
  IsFair (proxied name req) = IsHonest req × (name ≡ email → IsAdmin req)

  abbrev pub IsKept : Handler → Type 0
  IsKept handler = (req : EdgeRequest) → IsHonest req → IsFair (handler req)

  pub resume-IsFair :
      (handler : Handler)
      → IsKept handler
      → (step : Step) → IsFair step
      → IsFair (resume handler step)
  resume-IsFair handler kept (passed req) fair = kept req fair
  resume-IsFair handler kept (rejected e) fair = tt
  resume-IsFair handler kept (proxied name req) fair = fair

  pub append-IsKept :
      (xs ys : List Handler)
      → IsKept (run_chain xs)
      → IsKept (run_chain ys)
      → IsKept (run_chain (xs ++ ys))
  append-IsKept xs ys left right req honest =
      rw (run_chain-++ xs ys req)
        (resume-IsFair (run_chain ys) right (run_chain xs req) (left req honest))

  pub cons-IsKept :
      (x : Handler) (xs : List Handler)
      → IsKept x
      → IsKept (run_chain xs)
      → IsKept (run_chain (x ∷ xs))
  unfolding run_chain
  cons-IsKept x xs one rest req honest = resume-IsFair (run_chain xs) rest (x req) (one req honest)

  pub nil-IsKept : IsKept (run_chain [])
  unfolding run_chain
  nil-IsKept req honest = honest

  pub authenticate-IsKept : IsKept (authenticate o)
  unfolding authenticate
  authenticate-IsKept req honest = elim (Option-cases (extract_bearer_token o req.authorization)) [
    | inl e ↦ rw (e) tt
    | inr (token, e) ↦ elim (Option-cases (verify_access_token o token)) [
      | inl f ↦ rw (e, f) tt
      | inr (claims, f) ↦
          rw (e, f)
            (proven claims (record { token = token; extracted = e; verified = f }) refl refl)
    ]
  ]

  with_role-IsFair :
      (roles : List String) (req : EdgeRequest) (caller : Option AuthContext)
      → IsHonest req
      → IsFair (with_role o roles req caller)
  with_role-IsFair roles req none honest = tt
  with_role-IsFair roles req (some caller) honest =
      elim (Bool-cases (includes o caller.role roles)) [ inl f ↦ rw (f) honest | inr f ↦ rw (f) tt ]

  pub require_role-IsKept : (roles : List String) → IsKept (require_role o roles)
  unfolding require_role
  require_role-IsKept roles req honest = with_role-IsFair roles req req.auth honest

  pub limited-IsKept : (within : EdgeRequest → Bool) → IsKept (limited o within)
  limited-IsKept within req honest = elim (Bool-cases (within req)) [
    | inl e ↦ rw (e) honest
    | inr e ↦ rw (e) tt
  ]

  pub policy-IsKept :
      (route : ServiceRoute) (policy : RoutePolicy)
      → IsKept (run_chain policy.handlers)
      → IsKept (create_policy_handler route policy)
  unfolding create_policy_handler
  policy-IsKept route policy kept req honest =
      elim (Bool-cases (covers_method policy.methods req.method)) [
        | inr e ↦ rw (e) honest
        | inl e ↦ elim (Bool-cases (covers_path route.prefix policy.paths req.path)) [
          | inr f ↦ rw (e, f) honest
          | inl f ↦ rw (e, f) (kept req honest)
        ]
      ]

  pub proxy-IsKept :
      (route : ServiceRoute) → (route.name ≡ email → ⊥) → IsKept (create_service_proxy route)
  unfolding create_service_proxy
  proxy-IsKept route other req honest = elim (Bool-cases (starts_with route.prefix req.path)) [
    | inl e ↦ rw (e) (honest, λ same. absurd (other same))
    | inr e ↦ rw (e) honest
  ]
