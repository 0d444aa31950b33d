-- ===== src/Customer/Request.antt =====
-- customer.constants.ts and dto/customer-request.dto.ts: the canonical tax id, and what the
-- annotations of the request accept. `is_email` is the validator's `IsEmail`.
pub mod Canonical
use nest_order_api.Common.{
  ℕ, Text, Bool, true, ◌&&◌, ◌||◌, not, leb, ◌==◌, all, keep, length, to_upper,
}
use nest_order_api.Values.{Optional, unset, cleared, given}

pub record CustomerRequest : Type 0 where
  pub name : Text
  pub tax_id : Text
  pub passport_number : Optional
  pub email : Text

abbrev pub is_digit : ℕ → Bool
is_digit c = leb b'0' c && leb c b'9'

abbrev pub is_upper : ℕ → Bool
is_upper c = leb b'A' c && leb c b'Z'

abbrev pub is_lower : ℕ → Bool
is_lower c = leb b'a' c && leb c b'z'

abbrev pub is_alphanumeric : ℕ → Bool
is_alphanumeric c = is_upper c || is_lower c || is_digit c

unfoldable pub canonical_tax_id : Text → Text
unfolding to_upper
canonical_tax_id raw = to_upper (keep is_alphanumeric raw)

-- `TAX_ID_PATTERN`
unfoldable pub is_tax_id : Text → Bool
is_tax_id s =
    all (λ c. is_alphanumeric c || c == b'.' || c == b'/' || c == b'-') s
    && leb 5 (length s)
    && leb (length s) 20

-- `PASSPORT_NUMBER_PATTERN`
unfoldable pub is_passport_number : Text → Bool
is_passport_number s = all (λ c. is_upper c || is_digit c) s && leb 6 (length s) && leb (length s) 9

unfoldable pub is_valid_passport : Optional → Bool
unfolding is_passport_number
is_valid_passport unset = true
is_valid_passport cleared = true
is_valid_passport (given s) = is_passport_number s

-- `@Transform`, which runs before the validation.
unfoldable pub transform : CustomerRequest → CustomerRequest
transform dto = record dto { tax_id = canonical_tax_id dto.tax_id }

unfoldable pub is_valid_customer_request : (Text → Bool) → CustomerRequest → Bool
unfolding is_tax_id is_valid_passport
is_valid_customer_request is_email dto =
    leb 1 (length dto.name)
    && leb (length dto.name) 255
    && leb 1 (length dto.tax_id)
    && is_tax_id dto.tax_id
    && is_valid_passport dto.passport_number
    && leb 1 (length dto.email)
    && is_email dto.email
