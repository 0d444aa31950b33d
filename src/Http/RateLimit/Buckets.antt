-- ===== src/Http/RateLimit/Buckets.antt =====
-- What a request is counted under.
use nest_order_api.Common.{Text, lit, trim, ◌++◌, ◌≡◌, ◌≢◌, [], Option, some}
use nest_order_api.Http.RateLimit.{Claims, TrackedRequest}
use nest_order_api.Values.{undefined, str}

-- The header holds a token that is verified, expires and names the subject, which is not blank.
pub record IsFrom (verify : Text → Option Claims) (req : TrackedRequest) (subject : Text)
    : Type 0 where
  pub token : Text
  pub claims : Claims
  pub sent : req.authorization ≡ str (lit "Bearer " ++ token)
  pub verified : verify token ≡ some claims
  pub expires : claims.exp ≢ undefined
  pub named : claims.sub ≡ str subject
  pub filled : trim subject ≢ []
