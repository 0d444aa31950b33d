-- ===== src/Http/RateLimit.antt =====
-- common/http/rate-limit-tracker.ts: the key of the bucket that a request is counted in. `verify` is
-- the verification of a token by the JWT library; `none` is a token that it throws on.
pub mod Buckets
use nest_order_api.Common.{
  ℕ, Text, lit, ◌++◌, Option, none, some, starts_with, drop_units, length, ◌==◌, if◌then◌else◌,
}
use nest_order_api.Auth.{filled_text, is_defined}
use nest_order_api.Values.{Value, undefined, null, bool, num, date, str, arr, obj}

-- What the tracker reads of a verified token.
pub record Claims : Type 0 where
  pub sub : Value
  pub exp : Value

-- `req.headers.authorization` and `req.ip`.
pub record TrackedRequest : Type 0 where
  pub authorization : Value
  pub ip : Value

-- The token of a `Bearer` header.
unfoldable pub bearer_token : Value → Option Text
unfolding starts_with drop_units
bearer_token (str s) = if starts_with s (lit "Bearer ") then some (drop_units 7 s) else none
bearer_token _ = none

-- `typeof req.ip === 'string' && req.ip !== '' ? req.ip : 'unknown'`
unfoldable pub address_of : Value → Text
address_of (str ip) = if length ip == 0 then lit "unknown" else ip
address_of _ = lit "unknown"

module _ (verify : Text → Option Claims) where
  -- The subject that a verified token names, if it expires.
  unfoldable pub subject_of : Value → Option Text
  unfolding bearer_token
  subject_of authorization = elim (bearer_token authorization) [
    | none ↦ none
    | some token ↦ elim (verify token) [
      | none ↦ none
      | some payload ↦ if is_defined payload.exp then filled_text payload.sub else none
    ]
  ]

  unfoldable pub rate_limit_key : TrackedRequest → Text
  unfolding subject_of address_of
  rate_limit_key req = elim (subject_of req.authorization) [
    | some sub ↦ lit "user:" ++ sub
    | none ↦ address_of req.ip
  ]
