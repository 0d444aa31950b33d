-- ===== src/Errors/Filter/Concealed.antt =====
-- What an error response does not tell.
use nest_order_api.Common.{Text, text_eq, ◌≡◌, refl, inl, inr, Option, Bool-cases}
use nest_order_api.Customer.Service.{UniqueField, tax_id, passport_number, value_taken, field_name}
use nest_order_api.Errors.{
  ErrorCode, Exception, domain, http, version_mismatch, query_failed, other,
}
use nest_order_api.Errors.Filter.{is_payload_too_large, is_unique_violation, not_http, translate}
use nest_order_api.Sensitive.{mask_sensitive_deep, global_sensitive_field_names, stars}
use nest_order_api.Sensitive.Masked.{IsMasked, mask_sensitive_deep-IsMasked}
use nest_order_api.Values.{obj, end, one_field}

empty-IsMasked : IsMasked global_sensitive_field_names (obj end)
unfolding IsMasked
empty-IsMasked = tt

module _ (request_id : Option Text) where
  not_http-IsMasked :
      (e : Exception) → IsMasked global_sensitive_field_names (not_http request_id e).params
  not_http-IsMasked e = elim (Bool-cases (is_payload_too_large e)) [
    | inl t ↦ rw t empty-IsMasked
    | inr f ↦ rw f empty-IsMasked
  ]

  -- No error response shows the value of a sensitive field in its parameters, at any depth,
  -- whatever was thrown.
  pub translate-IsMasked :
      (e : Exception) → IsMasked global_sensitive_field_names (translate request_id e).params
  unfolding translate
  translate-IsMasked (version_mismatch message) = empty-IsMasked
  translate-IsMasked (query_failed e) = elim (Bool-cases (is_unique_violation e)) [
    | inl t ↦ rw t empty-IsMasked
    | inr f ↦ rw f (not_http-IsMasked (query_failed e))
  ]
  translate-IsMasked (domain d) = elim (Bool-cases (is_payload_too_large (domain d))) [
    | inl t ↦ rw t empty-IsMasked
    | inr f ↦ rw f (mask_sensitive_deep-IsMasked global_sensitive_field_names (obj d.params))
  ]
  translate-IsMasked (http status message) =
      elim (Bool-cases (is_payload_too_large (http status message))) [
        | inl t ↦ rw t empty-IsMasked
        | inr f ↦ rw f empty-IsMasked
      ]
  translate-IsMasked (other e) = not_http-IsMasked (other e)

  -- The response to a tax id or a passport number that is taken names the field and the conflict,
  -- and shows the stars in place of the value.
  pub translate-value_taken :
      (taken : UniqueField) (value : Text) (code : ErrorCode) (message : Text)
      → translate request_id (value_taken taken value code message) ≡ record {
        status = 409;
        error_code = code;
        message = message;
        params = obj (one_field (field_name taken) stars);
        request_id = request_id;
      }
  unfolding translate mask_sensitive_deep text_eq
  translate-value_taken tax_id value code message = refl
  translate-value_taken passport_number value code message = refl
