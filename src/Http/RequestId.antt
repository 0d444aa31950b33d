-- ===== src/Http/RequestId.antt =====
-- request-id.middleware.ts and request-context.ts: the id of a request. `random_uuid` is what
-- `randomUUID` would return.
use nest_order_api.Common.{
  Text, trim, to_lower, ◌≡◌, refl, true, Option, none, some, length, all, Bool-cases, inl, inr, ◌∙◌,
  length-map, lower_unit, if◌then◌else◌,
}
use nest_order_api.Patterns.{is_uuid_text}
use nest_order_api.Patterns.Uuid.{is_uuid_unit, is_uuid_text_form}

-- `acceptedRequestId`; the pattern accepts no empty text.
unfoldable pub accepted_request_id : Text → Option Text → Text
unfolding trim to_lower is_uuid_text
accepted_request_id random_uuid none = random_uuid
accepted_request_id random_uuid (some supplied) =
    if is_uuid_text (trim supplied) then to_lower (trim supplied) else random_uuid

-- The response's header and the store that the request runs in.
pub record RequestContext : Type 0 where
  pub header : Text
  pub request_id : Text

-- `use`
unfoldable pub use_request_id : Text → Option Text → RequestContext
unfolding accepted_request_id
use_request_id random_uuid supplied =
    let request_id = accepted_request_id random_uuid supplied in
    record { header = request_id; request_id = request_id }

-- `currentRequestId`
unfoldable pub current_request_id : Option RequestContext → Option Text
current_request_id none = none
current_request_id (some context) = some context.request_id

length-to_lower : (s : Text) → length (to_lower s) ≡ length s
unfolding to_lower
length-to_lower s = length-map lower_unit s

-- Whatever text the client supplies, the id of the request, which the response's header repeats, has
-- 36 units, all of them hexadecimal digits in lower case or dashes, if the random UUID is so.
pub use_request_id-IsUuid :
    (random_uuid : Text) (supplied : Option Text)
    → all is_uuid_unit random_uuid ≡ true
    → length random_uuid ≡ 36
    → ((use_request_id random_uuid supplied).header
        ≡ (use_request_id random_uuid supplied).request_id)
      × (all is_uuid_unit (use_request_id random_uuid supplied).request_id ≡ true)
      × (length (use_request_id random_uuid supplied).request_id ≡ 36)
unfolding use_request_id accepted_request_id
use_request_id-IsUuid random_uuid none units size = (refl, units, size)
use_request_id-IsUuid random_uuid (some supplied) units size =
    elim (Bool-cases (is_uuid_text (trim supplied))) [
      | inl e ↦
          let (good, whole) = is_uuid_text_form (trim supplied) e in
          rw (e, use_request_id, accepted_request_id)
            (refl, good, length-to_lower (trim supplied) ∙ whole)
      | inr n ↦ rw (n, use_request_id, accepted_request_id) (refl, units, size)
    ]
