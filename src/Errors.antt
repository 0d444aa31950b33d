-- ===== src/Errors.antt =====
-- common/exceptions: the error codes, the domain exceptions and every other value that a handler
-- can throw.
pub mod Filter
use nest_order_api.Common.{ℕ, Text, Option}
use nest_order_api.Values.{Fields}

pub data ErrorCode : Type 0 where
  validation_missing_field validation_customer_taxid_exists : ErrorCode
  validation_customer_passport_exists validation_customer_has_orders : ErrorCode
  validation_order_not_editable validation_order_empty : ErrorCode
  validation_order_invalid_status_transition validation_invalid_filter_value : ErrorCode
  validation_invalid_sort_field validation_constraint_violation : ErrorCode
  validation_payload_too_large validation_rate_limit_exceeded : ErrorCode
  resource_not_found_customer resource_not_found_order resource_not_found_item : ErrorCode
  conflict_concurrent_modification conflict_data_integrity_violation : ErrorCode
  authorization_access_denied authorization_unauthenticated internal_error : ErrorCode

pub record DomainException : Type 0 where
  pub status : ℕ
  pub error_code : ErrorCode
  pub message : Text
  pub params : Fields

abbrev pub resource_not_found_exception : ErrorCode → Text → Fields → DomainException
resource_not_found_exception code message params = record {
  status = 404;
  error_code = code;
  message = message;
  params = params;
}

abbrev pub conflict_exception : ErrorCode → Text → Fields → DomainException
conflict_exception code message params = record {
  status = 409;
  error_code = code;
  message = message;
  params = params;
}

abbrev pub invalid_input_exception : ErrorCode → Text → Fields → DomainException
invalid_input_exception code message params = record {
  status = 400;
  error_code = code;
  message = message;
  params = params;
}

-- The properties by which the exception filter knows an error that is not the program's own.
pub record ErrorFields : Type 0 where
  pub kind : Option Text
  pub status : Option ℕ
  pub status_code : Option ℕ
  pub code : Option Text

-- What can be thrown: the program's exceptions, the framework's HTTP exceptions (status and
-- message), the two errors of the ORM, and any other error.
pub data Exception : Type 0 where
  domain : DomainException → Exception
  http : ℕ → Text → Exception
  version_mismatch : Text → Exception
  query_failed other : ErrorFields → Exception
