-- ===== src/Sensitive.antt =====
-- common/security/sensitive.decorator.ts: masking by the registered names of the fields.
pub mod Masked
pub mod Email
use nest_order_api.Common.{
  Text, lit, text_eq, take, Bool, true, false, not, ◌&&◌, List, [], ◌∷◌, ◌++◌, any, split_on,
  if◌then◌else◌,
}
use nest_order_api.Values.{
  Value, undefined, null, bool, num, date, str, arr, obj, Items, nil, cons, Fields, end, field,
}

-- What the `@Sensitive()` annotations of customer.entity.ts register.
abbrev pub global_sensitive_field_names : List Text
global_sensitive_field_names = lit "taxId" ∷ lit "passportNumber" ∷ lit "email" ∷ []

abbrev pub has_name : List Text → Text → Bool
has_name names key = any (λ n. text_eq n key) names

-- `value != null`
abbrev pub is_present : Value → Bool
is_present undefined = false
is_present null = false
is_present _ = true

abbrev pub stars : Text
stars = lit "***"

unfoldable mutual
  pub mask_sensitive_deep : List Text → Value → Value
  mask_sensitive_deep names (arr xs) = arr (mask_items names xs)
  mask_sensitive_deep names (obj fs) = obj (mask_fields names fs)
  mask_sensitive_deep names v = v

  pub mask_items : List Text → Items → Items
  mask_items names nil = nil
  mask_items names (cons v xs) = cons (mask_sensitive_deep names v) (mask_items names xs)

  pub mask_fields : List Text → Fields → Fields
  mask_fields names end = end
  mask_fields names (field key entry fs) =
      let masked = mask_sensitive_deep names entry in
      field key (if has_name names key && is_present entry then str stars else masked)
        (mask_fields names fs)

-- The shallow variant, over the names registered for the class of the instance.
unfoldable pub mask_sensitive : List Text → Fields → Fields
mask_sensitive names end = end
mask_sensitive names (field key entry fs) =
    field key (if has_name names key && is_present entry then str stars else entry)
      (mask_sensitive names fs)

-- `const [local, domain] = email.split('@')`, with `domain` undefined if there is no `@`.
unfoldable pub mask_parts : List Text → Text
mask_parts [] = stars
mask_parts (_ ∷ []) = stars
mask_parts (_ ∷ [] ∷ _) = stars
mask_parts (local ∷ (c ∷ domain) ∷ _) = take 1 local ++ lit "***@" ++ c ∷ domain

unfoldable pub mask_email : Text → Text
unfolding mask_parts split_on
mask_email email = mask_parts (split_on b'@' email)
