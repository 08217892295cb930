-- ===== src/Gateway/Edge.antt =====
-- Requests at the edge and the handlers they pass: api-gateway/src/types/express.d.ts,
-- proxy/route-policy.ts and config/services.ts. A path is what stands after each of its slashes, as
-- `split("/")` gives it; a header of several words is the words.
use practical_microservice.Common.{ℕ, String, List, [], ◌∷◌, Option}

pub data HttpMethod : Type 0 where
  get post put patch delete head options : HttpMethod

pub data ServiceName : Type 0 where
  auth user product inventory email : ServiceName

-- The errors that the handlers before a proxy raise: 401, 403, 413, 429 and 404.
pub data EdgeError : Type 0 where
  unauthorized forbidden body_too_large too_many_requests not_found : EdgeError

pub record AuthContext : Type 0 where
  pub auth_user_id : String
  pub email : String
  pub username : String
  pub role : String
  pub session_id : String

pub record EdgeRequest : Type 0 where
  pub method : HttpMethod
  pub path : List String
  pub authorization : Option (List String)
  pub content_length : Option ℕ
  pub actor_header : Option String
  pub actor : Option String
  pub auth : Option AuthContext

-- How a handler ends: it hands the request on, raises an error, or a proxy sends it upstream.
pub data Step : Type 0 where
  passed : EdgeRequest → Step
  rejected : EdgeError → Step
  proxied : ServiceName → EdgeRequest → Step

abbrev pub Handler : Type 0
Handler = EdgeRequest → Step

abbrev pub resume : Handler → Step → Step
resume h (passed req) = h req
resume h (rejected error) = rejected error
resume h (proxied service req) = proxied service req

unfoldable pub run_chain : List Handler → Handler
run_chain [] req = passed req
run_chain (handler ∷ handlers) req = resume (run_chain handlers) (handler req)
