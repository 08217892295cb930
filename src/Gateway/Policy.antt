-- ===== src/Gateway/Policy.antt =====
-- The routes, their policies and the proxies: api-gateway/src/proxy/route-policy.ts,
-- proxy/service-proxy.ts, config/route-policies.ts, config/services.ts, middlewares/rate-limit.ts
-- and app.ts. The routes that the gateway answers itself (the banner, the probes, the documents)
-- are left out.
use practical_microservice.Common.{
  Bool, true, false, not, ◌&&◌, ◌||◌, String, str_eq, List, [], ◌∷◌, ◌++◌, map, Option, none, some,
  if◌then◌else◌,
}
use practical_microservice.Gateway.Edge.{
  HttpMethod, get, post, put, patch, delete, head, options, ServiceName, auth, user, product,
  inventory, email, EdgeRequest, too_many_requests, not_found, passed, rejected, proxied, Handler,
  run_chain,
}
use practical_microservice.Gateway.Identity.{
  Outside, authenticate, require_role, request_context, body_limit,
}

-- A segment of a policy's path: a word, `:name` or `*`.
pub data Segment : Type 0 where
  literal : String → Segment
  parameter : Segment
  wildcard : Segment

-- The regular expression of a path, as a test. A wildcard before the end, which the gateway refuses
-- when it starts, does not occur in the table.
unfoldable pub matches : List Segment → List String → Bool
matches [] [] = true
matches [] (word ∷ []) = str_eq word ""
matches [] (word ∷ more ∷ words) = false
matches (wildcard ∷ segments) words = true
matches (literal name ∷ segments) [] = false
matches (literal name ∷ segments) (word ∷ words) = str_eq name word && matches segments words
matches (parameter ∷ segments) [] = false
matches (parameter ∷ segments) (word ∷ words) = not (str_eq word "") && matches segments words

unfoldable pub compile_policy_path : List String → List Segment → List String → Bool
compile_policy_path prefix pattern path = matches (map literal prefix ++ pattern) path

pub record ServiceRoute : Type 0 where
  pub name : ServiceName
  pub prefix : List String

pub record RoutePolicy : Type 0 where
  pub paths : List (List Segment)
  pub methods : Option (List HttpMethod)
  pub handlers : List Handler

abbrev pub is_method : HttpMethod → HttpMethod → Bool
is_method get get = true
is_method post post = true
is_method put put = true
is_method patch patch = true
is_method delete delete = true
is_method head head = true
is_method options options = true
is_method _ _ = false

abbrev pub has_method : List HttpMethod → HttpMethod → Bool
has_method [] method = false
has_method (m ∷ methods) method = is_method m method || has_method methods method

abbrev pub covers_method : Option (List HttpMethod) → HttpMethod → Bool
covers_method none method = true
covers_method (some methods) method = has_method methods method

abbrev pub covers_path : List String → List (List Segment) → List String → Bool
covers_path prefix [] path = false
covers_path prefix (pattern ∷ patterns) path =
    compile_policy_path prefix pattern path || covers_path prefix patterns path

unfoldable pub create_policy_handler : ServiceRoute → RoutePolicy → Handler
create_policy_handler route policy req =
    if not (covers_method policy.methods req.method)
    then passed req
    else if not (covers_path route.prefix policy.paths req.path)
    then passed req
    else run_chain policy.handlers req

-- The path is the prefix or goes on after it with a slash.
unfoldable pub starts_with : List String → List String → Bool
starts_with [] path = true
starts_with (name ∷ prefix) [] = false
starts_with (name ∷ prefix) (word ∷ path) = str_eq name word && starts_with prefix path

unfoldable pub create_service_proxy : ServiceRoute → Handler
create_service_proxy route req =
    if starts_with route.prefix req.path then proxied route.name req else passed req

abbrev pub service : ServiceName → String → ServiceRoute
service name word = record { name = name; prefix = "api" ∷ "v1" ∷ word ∷ [] }

abbrev pub service_registry : List ServiceRoute
service_registry =
    service auth "auth"
    ∷ service user "users"
    ∷ service product "products"
    ∷ service inventory "inventory"
    ∷ service email "emails"
    ∷ []

module _ (o : Outside) where
  abbrev pub limited : (EdgeRequest → Bool) → Handler
  limited within req = if within req then passed req else rejected too_many_requests

  abbrev pub admin_only : List Handler
  admin_only = authenticate o ∷ require_role o ("ADMIN" ∷ []) ∷ []

  abbrev pub writes : Option (List HttpMethod)
  writes = some (post ∷ patch ∷ put ∷ delete ∷ [])

  abbrev pub at : String → List Segment
  at word = literal word ∷ []

  unfoldable pub route_policies : ServiceName → List RoutePolicy
  route_policies auth =
      record {
        methods = some (post ∷ []);
        paths =
            at "register"
            ∷ at "login"
            ∷ at "refresh"
            ∷ at "forgot-password"
            ∷ at "reset-password"
            ∷ at "verify-email"
            ∷ at "resend-verification"
            ∷ [];
        handlers = limited o.within_credential_rate ∷ [];
      }
      ∷ record {
        methods = none;
        paths =
            at "me"
            ∷ at "sessions"
            ∷ at "logout-all"
            ∷ at "change-password"
            ∷ at "login-history"
            ∷ [];
        handlers = authenticate o ∷ [];
      }
      ∷ []
  route_policies user =
      record { methods = some (post ∷ []); paths = [] ∷ []; handlers = admin_only }
      ∷ record {
        methods = some (get ∷ []);
        paths = (literal "auth" ∷ parameter ∷ []) ∷ [];
        handlers = admin_only;
      }
      ∷ record { methods = none; paths = (parameter ∷ []) ∷ []; handlers = authenticate o ∷ [] }
      ∷ []
  route_policies product =
      record { methods = writes; paths = [] ∷ (parameter ∷ []) ∷ []; handlers = admin_only } ∷ []
  route_policies inventory =
      record {
        methods = some (get ∷ []);
        paths = (wildcard ∷ []) ∷ [];
        handlers = authenticate o ∷ [];
      }
      ∷ record {
        methods = writes;
        paths = [] ∷ (parameter ∷ []) ∷ (parameter ∷ wildcard ∷ []) ∷ [];
        handlers = admin_only;
      }
      ∷ []
  route_policies email =
      record { methods = none; paths = (wildcard ∷ []) ∷ []; handlers = admin_only } ∷ []

  unfoldable pub group_of : ServiceRoute → List Handler
  group_of route =
      map (create_policy_handler route) (route_policies route.name)
      ++ (create_service_proxy route ∷ [])

  unfoldable pub flat_groups : List ServiceRoute → List Handler
  flat_groups [] = []
  flat_groups (route ∷ routes) = group_of route ++ flat_groups routes

  abbrev pub create_service_handlers : List Handler
  create_service_handlers = flat_groups service_registry

  unfoldable pub create_app : Handler
  create_app = run_chain (
      request_context o ∷ body_limit o ∷ limited o.within_rate ∷ create_service_handlers
      ++ ((λ req. rejected not_found) ∷ []))
