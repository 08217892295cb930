-- ===== src/Auth/Errors.antt =====
-- The errors of the auth service: services/auth/src/errors/app-error.ts, and how a failure of the
-- database client becomes one: services/auth/src/errors/normalize.ts. Of a message only the
-- constant texts of the service's own 401s are kept, since a caller can tell those apart.
use practical_microservice.Common.{ℕ}

-- The texts of the service's `UnauthorizedError`s.
pub data UnauthorizedMessage : Type 0 where
  invalid_credentials invalid_code invalid_session session_ended : UnauthorizedMessage
  authentication_required wrong_current_password : UnauthorizedMessage
  invalid_access_token missing_claims : UnauthorizedMessage

pub data AppError : Type 0 where
  conflict forbidden too_many_requests not_found bad_request : AppError
  unauthorized : UnauthorizedMessage → AppError
  internal_server_error service_unavailable : AppError

unfoldable pub status_code : AppError → ℕ
status_code conflict = 409
status_code forbidden = 403
status_code too_many_requests = 429
status_code not_found = 404
status_code bad_request = 400
status_code (unauthorized _) = 401
status_code internal_server_error = 500
status_code service_unavailable = 503

-- The codes of the client's known errors that are told apart.
pub data PrismaError : Type 0 where
  unique_violation related_missing record_not_found value_too_long value_missing : PrismaError
  unreachable other_failure : PrismaError

unfoldable pub to_app_error : PrismaError → AppError
to_app_error unique_violation = conflict
to_app_error related_missing = conflict
to_app_error record_not_found = not_found
to_app_error value_too_long = bad_request
to_app_error value_missing = bad_request
to_app_error unreachable = service_unavailable
to_app_error other_failure = internal_server_error
