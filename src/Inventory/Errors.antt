-- ===== src/Inventory/Errors.antt =====
-- The errors of the inventory service: services/inventory/src/errors/app-error.ts. Messages are
-- left out, as clients branch on codes and never on messages.
use practical_microservice.Common.{ℕ, Option, List, Bool, true, false}
use practical_microservice.Common.Int.{ℤ}

-- `ErrorCode`
pub data ErrorCode : Type 0 where
  bad_request validation_error unauthorized forbidden not_found conflict : ErrorCode
  unprocessable_entity too_many_requests internal_server_error service_unavailable : ErrorCode

-- `ErrorDetail`, with the fields that the service fills in for one line of a batch.
pub record ErrorDetail : Type 0 where
  pub product_id : ℕ
  pub code : ErrorCode
  pub requested : ℤ
  pub available : Option ℤ
  pub reserved : Option ℤ

-- A constructor for each subclass of `AppError`.
pub data AppError : Type 0 where
  bad_request_error validation_error_error : List ErrorDetail → AppError
  unauthorized_error forbidden_error not_found_error : AppError
  conflict_error : List ErrorDetail → AppError
  duplicate_operation_error : ℕ → AppError
  unprocessable_entity_error : List ErrorDetail → AppError
  too_many_requests_error service_unavailable_error internal_server_error_error : AppError

unfoldable pub status_code : AppError → ℕ
status_code (bad_request_error _) = 400
status_code (validation_error_error _) = 422
status_code unauthorized_error = 401
status_code forbidden_error = 403
status_code not_found_error = 404
status_code (conflict_error _) = 409
status_code (duplicate_operation_error _) = 409
status_code (unprocessable_entity_error _) = 422
status_code too_many_requests_error = 429
status_code service_unavailable_error = 503
status_code internal_server_error_error = 500

unfoldable pub error_code : AppError → ErrorCode
error_code (bad_request_error _) = bad_request
error_code (validation_error_error _) = validation_error
error_code unauthorized_error = unauthorized
error_code forbidden_error = forbidden
error_code not_found_error = not_found
error_code (conflict_error _) = conflict
error_code (duplicate_operation_error _) = conflict
error_code (unprocessable_entity_error _) = unprocessable_entity
error_code too_many_requests_error = too_many_requests
error_code service_unavailable_error = service_unavailable
error_code internal_server_error_error = internal_server_error

unfoldable pub is_operational : AppError → Bool
is_operational internal_server_error_error = false
is_operational _ = true
