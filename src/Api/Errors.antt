-- ===== src/Api/Errors.antt =====
-- backend/app/core/exceptions.py: the errors that have an HTTP status.
use uvipystock.Prelude.{ℕ}

-- The subclasses of `AppError` that are raised, by name without their ending.
pub data AppError : Type 0 where
  authentication invalid_signature expired_timestamp missing_api_key revoked_api_key : AppError
  insufficient_permissions rate_limit_exceeded insufficient_balance_http : AppError
  order_not_found_http order_not_cancelable_http order_validation_http : AppError
  post_only_cross_http trading_pair_not_found user_not_found : AppError

-- `status_code`, inherited where a class has none of its own.
unfoldable pub status_code : AppError → ℕ
status_code AppError.authentication = 401
status_code AppError.invalid_signature = 401
status_code AppError.expired_timestamp = 401
status_code AppError.missing_api_key = 401
status_code AppError.revoked_api_key = 401
status_code AppError.insufficient_permissions = 403
status_code AppError.rate_limit_exceeded = 429
status_code AppError.insufficient_balance_http = 402
status_code AppError.order_not_found_http = 404
status_code AppError.order_not_cancelable_http = 409
status_code AppError.order_validation_http = 400
status_code AppError.post_only_cross_http = 409
status_code AppError.trading_pair_not_found = 404
status_code AppError.user_not_found = 404

-- What a route ends with: a value and its status, an error with its own, or any other exception.
pub data Response (A : Type 0) : Type 0 where
  responded : ℕ → A → Response A
  failed : AppError → Response A
  internal_error : Response A

-- `app_error_handler` and `unhandled_exception_handler`
abbrev pub status_of : {A : Type 0} → Response A → ℕ
status_of (responded status a) = status
status_of (failed e) = status_code e
status_of internal_error = 500
