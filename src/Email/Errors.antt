-- ===== src/Email/Errors.antt =====
-- The errors of the email service: services/email/src/errors/app-error.ts, and how a failure of the
-- database client becomes one: services/email/src/errors/normalize.ts. Messages are left out.
use practical_microservice.Common.{ℕ}

pub data AppError : Type 0 where
  bad_request not_found conflict service_unavailable internal_server_error : AppError

unfoldable pub status_code : AppError → ℕ
status_code bad_request = 400
status_code not_found = 404
status_code conflict = 409
status_code service_unavailable = 503
status_code internal_server_error = 500

-- The codes of the client's known errors that are told apart.
pub data PrismaError : Type 0 where
  unique_violation related_missing record_not_found value_too_long value_missing : PrismaError
  unreachable other_failure : PrismaError

unfoldable pub to_app_error : PrismaError → AppError
to_app_error unique_violation = conflict
to_app_error related_missing = conflict
to_app_error record_not_found = not_found
to_app_error value_too_long = bad_request
to_app_error value_missing = bad_request
to_app_error unreachable = service_unavailable
to_app_error other_failure = internal_server_error
