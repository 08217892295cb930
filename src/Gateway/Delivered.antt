-- ===== src/Gateway/Delivered.antt =====
-- The whole gateway, by the services that it stands before.
use practical_microservice.Common.{
  ◌≡◌, refl, inl, inr, true, false, String, eq_iff, List, [], ◌∷◌, ◌++◌, map, Option, none, some,
  Bool-cases, Option-cases, All, arith, ℕ, leb,
}
use mathlib.Core.Path.{subst}
use practical_microservice.Gateway.Edge.{
  not_found, ServiceName, auth, user, product, inventory, email, EdgeRequest, Step, rejected,
  proxied, Handler, resume, run_chain,
}
use practical_microservice.Gateway.Identity.{
  AccessTokenClaims, Outside, extract_bearer_token, verify_access_token, identified, authenticate,
  require_role, request_context, body_limit, includes, with_length,
}
use practical_microservice.Gateway.Policy.{
  literal, wildcard, matches, compile_policy_path, ServiceRoute, RoutePolicy, service,
  create_policy_handler, starts_with, create_service_proxy, limited, admin_only, route_policies,
  group_of, flat_groups, service_registry, create_app,
}
use practical_microservice.Gateway.Proven.{
  IsVerified, IsHonest, IsAdmin, IsFair, IsKept, anonymous, proven, resume-IsFair, append-IsKept,
  cons-IsKept, nil-IsKept, authenticate-IsKept, require_role-IsKept, limited-IsKept, policy-IsKept,
  proxy-IsKept,
}

wildcard-matches :
    (prefix path : List String)
    → matches (map literal prefix ++ (wildcard ∷ [])) path ≡ starts_with prefix path
unfolding matches starts_with
wildcard-matches [] path = refl
wildcard-matches (name ∷ prefix) [] = refl
wildcard-matches (name ∷ prefix) (word ∷ path) = rw (wildcard-matches prefix path) refl

module _ (o : Outside) where
  admin_only-IsKept : IsKept o (run_chain (admin_only o))
  admin_only-IsKept =
      cons-IsKept o _ _ (authenticate-IsKept o)
        (cons-IsKept o _ _ (require_role-IsKept o _) (nil-IsKept o))

  abbrev proxy_mail : Handler
  proxy_mail = run_chain (create_service_proxy (service email "emails") ∷ [])

  -- The mail's proxy after its policy, for a path that is the mail's.
  proxy_mail-IsFair :
      (req : EdgeRequest) (claims : AccessTokenClaims)
      → IsVerified o req claims
      → starts_with (service email "emails").prefix req.path ≡ true
      → IsFair o (
          resume proxy_mail
            (run_chain (require_role o ("ADMIN" ∷ []) ∷ []) (identified o claims req)))
  unfolding create_service_proxy require_role run_chain
  proxy_mail-IsFair req claims v inside =
      elim (Bool-cases (includes o claims.role ("ADMIN" ∷ []))) [
        | inr f ↦ rw (f) tt
        | inl f ↦
            rw (f, inside)
              (
                proven claims
                    (record { token = v.token; extracted = v.extracted; verified = v.verified })
                    refl refl,
                λ same. record {
                  claims = claims;
                  verified = record {
                    token = v.token;
                    extracted = v.extracted;
                    verified = v.verified;
                  };
                  role = ground (arith, eq_iff "ADMIN" claims.role);
                  header = refl;
                },
              )
      ]

  mail_admin-IsFair :
      (req : EdgeRequest)
      → starts_with (service email "emails").prefix req.path ≡ true
      → IsFair o (resume proxy_mail (run_chain (admin_only o) req))
  unfolding authenticate run_chain
  mail_admin-IsFair req inside = elim (Option-cases (extract_bearer_token o req.authorization)) [
    | inl e ↦ rw (e) tt
    | inr (token, e) ↦ elim (Option-cases (verify_access_token o token)) [
      | inl f ↦ rw (e, f) tt
      | inr (claims, f) ↦
          rw (e, f)
            (proxy_mail-IsFair req claims (record { token = token; extracted = e; verified = f })
              inside)
    ]
  ]

  proxy_mail-outside :
      (req : EdgeRequest)
      → IsHonest o req
      → starts_with (service email "emails").prefix req.path ≡ false
      → IsFair o (proxy_mail req)
  unfolding create_service_proxy run_chain
  proxy_mail-outside req honest outside = rw (outside) honest

  mail-IsKept : IsKept o (run_chain (group_of o (service email "emails")))
  unfolding group_of route_policies create_policy_handler create_service_proxy compile_policy_path
      run_chain
  mail-IsKept req honest =
      elim (Bool-cases (starts_with (service email "emails").prefix req.path)) [
        | inl e ↦
            rw (wildcard-matches (service email "emails").prefix req.path, e)
              (mail_admin-IsFair req e)
        | inr e ↦
            rw (wildcard-matches (service email "emails").prefix req.path, e)
              (proxy_mail-outside req honest e)
      ]

  group-IsKept :
      (route : ServiceRoute) (policies : List RoutePolicy)
      → (route.name ≡ email → ⊥)
      → All (λ policy. IsKept o (run_chain policy.handlers)) policies
      → IsKept o (
          run_chain
            (map (create_policy_handler route) policies ++ (create_service_proxy route ∷ [])))
  group-IsKept route [] other kept =
      cons-IsKept o (create_service_proxy route) [] (proxy-IsKept o route other) (nil-IsKept o)
  group-IsKept route (policy ∷ policies) other (one, kept) =
      cons-IsKept o _ _ (policy-IsKept o route policy one) (group-IsKept route policies other kept)

  identity-IsKept : IsKept o (run_chain (authenticate o ∷ []))
  identity-IsKept = cons-IsKept o _ _ (authenticate-IsKept o) (nil-IsKept o)

  policies-IsKept :
      (name : ServiceName)
      → All (λ policy. IsKept o (run_chain policy.handlers)) (route_policies o name)
  unfolding route_policies
  policies-IsKept auth = (
    cons-IsKept o _ _ (limited-IsKept o o.within_credential_rate) (nil-IsKept o),
    (identity-IsKept, tt),
  )
  policies-IsKept user = (admin_only-IsKept, (admin_only-IsKept, (identity-IsKept, tt)))
  policies-IsKept product = (admin_only-IsKept, tt)
  policies-IsKept inventory = (identity-IsKept, (admin_only-IsKept, tt))
  policies-IsKept email = (admin_only-IsKept, tt)

  service-IsKept :
      (name : ServiceName) (word : String)
      → (name ≡ email → ⊥)
      → IsKept o (run_chain (group_of o (service name word)))
  unfolding group_of
  service-IsKept name word other =
      group-IsKept (service name word) (route_policies o name) other (policies-IsKept name)

  services-IsKept : IsKept o (run_chain (flat_groups o service_registry))
  unfolding flat_groups
  services-IsKept = append-IsKept o _ _ (service-IsKept auth "auth" (λ e. absurd (ground arith))) (
      append-IsKept o _ _ (service-IsKept user "users" (λ e. absurd (ground arith))) (
        append-IsKept o _ _ (service-IsKept product "products" (λ e. absurd (ground arith))) (
          append-IsKept o _ _ (service-IsKept inventory "inventory" (λ e. absurd (ground arith)))
            (append-IsKept o _ _ mail-IsKept (nil-IsKept o)))))

  body_limit-IsKept : IsKept o (body_limit o)
  unfolding body_limit
  body_limit-IsKept req honest = with_length-IsFair req.content_length
    where
      with_length-IsFair : (bytes : Option ℕ) → IsFair o (with_length o req bytes)
      with_length-IsFair none = honest
      with_length-IsFair (some bytes) = elim (Bool-cases (leb bytes o.max_body_bytes)) [
        | inl f ↦ rw (f) honest
        | inr f ↦ rw (f) tt
      ]

  abbrev missing : Handler
  missing req = rejected not_found

  missing-IsKept : IsKept o missing
  missing-IsKept req honest = tt

  app-IsKept : IsKept o (
      run_chain
        (body_limit o ∷ limited o o.within_rate ∷ flat_groups o service_registry ++ (missing ∷ [])))
  app-IsKept = cons-IsKept o _ _ body_limit-IsKept (
      cons-IsKept o _ _ (limited-IsKept o o.within_rate)
        (append-IsKept o _ _ services-IsKept (cons-IsKept o _ _ missing-IsKept (nil-IsKept o))))

  along-IsFair :
      (step : Step) (name : ServiceName) (sent : EdgeRequest)
      → IsFair o step
      → step ≡ proxied name sent
      → IsFair o (proxied name sent)
  along-IsFair step name sent fair same = subst (λ (x : Step). IsFair o x) same fair

  request_context-IsFair :
      (req : EdgeRequest)
      → o.trust_client_actor ≡ false
      → req.auth ≡ none
      → IsFair o (request_context o req)
  unfolding request_context
  request_context-IsFair req untrusting fresh = rw (untrusting) (anonymous fresh refl)

  create_app-IsFair :
      (req sent : EdgeRequest) (name : ServiceName)
      → o.trust_client_actor ≡ false
      → req.auth ≡ none
      → create_app o req ≡ proxied name sent
      → IsFair o (proxied name sent)
  unfolding create_app run_chain
  create_app-IsFair req sent name untrusting fresh h =
      along-IsFair (create_app o req) name sent
        (resume-IsFair o _ app-IsKept (request_context o req)
          (request_context-IsFair req untrusting fresh))
        h

  -- Whatever a client puts in the headers: unless the gateway is told to trust the clients' actor,
  -- a request that it sends to a service says nothing of an actor and of a caller, or has for the
  -- caller the claims of its own bearer token, which was verified, and in the actor's header their
  -- subject.
  pub create_app-IsHonest :
      (req sent : EdgeRequest) (name : ServiceName)
      → o.trust_client_actor ≡ false
      → req.auth ≡ none
      → create_app o req ≡ proxied name sent
      → IsHonest o sent
  create_app-IsHonest req sent name untrusting fresh h =
      (create_app-IsFair req sent name untrusting fresh h).0

  -- A request that reaches the email service, whatever its path below the prefix and its method,
  -- carries a bearer token that was verified and is an administrator's, and names its subject as
  -- the actor, unless the gateway is told to trust the clients' actor.
  pub create_app-IsAdmin :
      (req sent : EdgeRequest)
      → o.trust_client_actor ≡ false
      → req.auth ≡ none
      → create_app o req ≡ proxied email sent
      → IsAdmin o sent
  create_app-IsAdmin req sent untrusting fresh h =
      (create_app-IsFair req sent email untrusting fresh h).1 refl
