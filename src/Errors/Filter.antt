-- ===== src/Errors/Filter.antt =====
-- common/exceptions/global-exception.filter.ts: the response that an exception is translated to.
-- `request_id` is the id of the request, if it has one.
pub mod Concealed
pub mod Driver
use nest_order_api.Common.{
  ℕ, Text, lit, text_eq, Bool, true, false, ◌||◌, ◌==◌, Option, none, some, if◌then◌else◌,
}
use nest_order_api.Errors.{
  ErrorCode, conflict_concurrent_modification, conflict_data_integrity_violation,
  validation_payload_too_large, validation_constraint_violation, validation_rate_limit_exceeded,
  authorization_unauthenticated, authorization_access_denied, internal_error, ErrorFields,
  Exception, domain, http, version_mismatch, query_failed, other,
}
use nest_order_api.Sensitive.{mask_sensitive_deep, global_sensitive_field_names}
use nest_order_api.Values.{Value, obj, end}

pub record ErrorResponse : Type 0 where
  pub status : ℕ
  pub error_code : ErrorCode
  pub message : Text
  pub params : Value
  pub request_id : Option Text

abbrev pub is_text : Text → Option Text → Bool
is_text s none = false
is_text s (some t) = text_eq t s

abbrev pub is_number : ℕ → Option ℕ → Bool
is_number n none = false
is_number n (some m) = m == n

unfoldable pub is_payload_too_large : Exception → Bool
is_payload_too_large (domain d) = d.status == 413
is_payload_too_large (http status _) = status == 413
is_payload_too_large (version_mismatch _) = false
is_payload_too_large (query_failed e) =
    is_text (lit "entity.too.large") e.kind || is_number 413 e.status || is_number 413 e.status_code
is_payload_too_large (other e) =
    is_text (lit "entity.too.large") e.kind || is_number 413 e.status || is_number 413 e.status_code

unfoldable pub is_unique_violation : ErrorFields → Bool
is_unique_violation error = is_text (lit "23505") error.code

unfoldable pub default_code_for : ℕ → ErrorCode
default_code_for status =
    if status == 400
    then validation_constraint_violation
    else if status == 401
    then authorization_unauthenticated
    else if status == 403
    then authorization_access_denied
    else if status == 429
    then validation_rate_limit_exceeded
    else internal_error

module _ (request_id : Option Text) where
  abbrev pub send : ℕ → ErrorCode → Text → ErrorResponse
  send status error_code message = record {
    status = status;
    error_code = error_code;
    message = message;
    params = obj end;
    request_id = request_id;
  }

  abbrev pub too_large : ErrorResponse
  too_large = send 413 validation_payload_too_large (lit "Request body too large")

  abbrev pub integrity : ErrorResponse
  integrity = send 409 conflict_data_integrity_violation (lit "Data integrity violation")

  abbrev pub unhandled : ErrorResponse
  unhandled = send 500 internal_error (lit "Internal server error")

  -- `catch`, from the test of the payload on, for what is not an exception of the framework.
  abbrev pub not_http : Exception → ErrorResponse
  not_http exception = if is_payload_too_large exception then too_large else unhandled

  -- `catch`
  unfoldable pub translate : Exception → ErrorResponse
  unfolding is_payload_too_large is_unique_violation default_code_for
  translate (version_mismatch message) = send 409 conflict_concurrent_modification message
  translate (query_failed e) =
      if is_unique_violation e then integrity else not_http (query_failed e)
  translate (domain d) = if is_payload_too_large (domain d) then too_large else record {
    status = d.status;
    error_code = d.error_code;
    message = d.message;
    params = mask_sensitive_deep global_sensitive_field_names (obj d.params);
    request_id = request_id;
  }
  translate (http status message) =
      if is_payload_too_large (http status message)
      then too_large
      else send status (default_code_for status)
          (if status == 401 then lit "Authentication required" else message)
  translate (other e) = not_http (other e)
