-- ===== src/Gateway/Tests.antt =====
-- The edge at concrete requests.
use practical_microservice.Common.{
  ◌≡◌, refl, true, false, String, str_eq, List, [], ◌∷◌, Option, none, some, if◌then◌else◌,
}
use practical_microservice.Gateway.Edge.{
  get, email, unauthorized, forbidden, EdgeRequest, rejected, proxied, run_chain,
}
use practical_microservice.Gateway.Identity.{
  Payload, AccessTokenClaims, Outside, extract_bearer_token, verify_access_token, identified,
  authenticate, require_role, request_context, body_limit,
}
use practical_microservice.Gateway.Policy.{
  create_app, matches, starts_with, compile_policy_path, create_policy_handler,
  create_service_proxy, route_policies, group_of, flat_groups,
}
use practical_microservice.Gateway.Proven.{IsHonest, IsAdmin}
use practical_microservice.Gateway.Delivered.{create_app-IsHonest, create_app-IsAdmin}

abbrev payload : String → Payload
payload role = record {
  sub = some "u-1";
  email = some "ann@shop.example";
  username = some "ann";
  role = some role;
  sid = some "s-1";
}

abbrev jwt_verify : String → Option Payload
jwt_verify token =
    if str_eq token "admin-token"
    then some (payload "ADMIN")
    else if str_eq token "user-token"
    then some (payload "USER")
    else none

abbrev outside : Outside
outside = record {
  trust_client_actor = false;
  max_body_bytes = 1000;
  to_lower_case = λ word. if str_eq word "Bearer" then "bearer" else word;
  trim = λ text. text;
  first_120 = λ text. text;
  jwt_verify = jwt_verify;
  within_rate = λ req. true;
  within_credential_rate = λ req. true;
}

abbrev stats : Option (List String) → EdgeRequest
stats authorization = record {
  method = get;
  path = "api" ∷ "v1" ∷ "emails" ∷ "stats" ∷ [];
  authorization = authorization;
  content_length = none;
  actor_header = some "someone-else";
  actor = none;
  auth = none;
}

abbrev bearer : String → Option (List String)
bearer token = some ("Bearer" ∷ token ∷ [])

abbrev admin_claims : AccessTokenClaims
admin_claims = record {
  sub = "u-1";
  email = "ann@shop.example";
  username = "ann";
  role = "ADMIN";
  sid = "s-1";
}

abbrev delivered : EdgeRequest
delivered = identified outside admin_claims (stats (bearer "admin-token"))

stats_admin : create_app outside (stats (bearer "admin-token")) ≡ proxied email delivered
unfolding create_app run_chain flat_groups group_of route_policies create_policy_handler
    create_service_proxy compile_policy_path matches starts_with authenticate require_role
    request_context body_limit extract_bearer_token verify_access_token
stats_admin = refl

stats_user : create_app outside (stats (bearer "user-token")) ≡ rejected forbidden
unfolding create_app run_chain flat_groups group_of route_policies create_policy_handler
    create_service_proxy compile_policy_path matches starts_with authenticate require_role
    request_context body_limit extract_bearer_token verify_access_token
stats_user = refl

stats_anonymous : create_app outside (stats none) ≡ rejected unauthorized
unfolding create_app run_chain flat_groups group_of route_policies create_policy_handler
    create_service_proxy compile_policy_path matches starts_with authenticate require_role
    request_context body_limit extract_bearer_token verify_access_token
stats_anonymous = refl

create_app-IsHonest_example : IsHonest outside delivered
create_app-IsHonest_example =
    create_app-IsHonest outside (stats (bearer "admin-token")) delivered email refl refl stats_admin

create_app-IsAdmin_example : IsAdmin outside delivered
create_app-IsAdmin_example =
    create_app-IsAdmin outside (stats (bearer "admin-token")) delivered refl refl stats_admin
