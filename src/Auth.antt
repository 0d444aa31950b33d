-- ===== src/Auth.antt =====
-- common/auth: the roles, the guard that checks them, and what the JWT strategy makes of a verified
-- token.
pub mod Laws
use nest_order_api.Common.{
  ℕ, Text, lit, text_eq, Bool, true, false, not, ◌&&◌, ◌||◌, List, [], ◌∷◌, any, all, trim, length,
  ◌==◌, Option, none, some, or_else, if◌then◌else◌,
}
use nest_order_api.Values.{Value, undefined, null, bool, num, date, str, arr, obj, Items, nil, cons}
use nest_order_api.Errors.{Exception, http}
use nest_order_api.Audit.{CurrentUserContext}
use nest_order_api.Effects.{Result, ok, err}

pub data Role : Type 0 where
  user admin : Role

abbrev pub role_text : Role → Text
role_text user = lit "ROLE_USER"
role_text admin = lit "ROLE_ADMIN"

-- What `validate()` returns has the shape of the context.
abbrev pub RequestUser : Type 0
RequestUser = CurrentUserContext

abbrev pub includes : List Text → Text → Bool
includes xs x = any (λ y. text_eq y x) xs

abbrev pub roles_of : Option RequestUser → List Text
roles_of none = []
roles_of (some u) = u.roles

-- `RolesGuard.canActivate`, for the roles that the reflector found.
unfoldable pub can_activate : Option (List Role) → Option RequestUser → Result Bool
can_activate none u = ok true
can_activate (some []) u = ok true
can_activate (some (r ∷ rs)) u =
    if any (λ role. includes (roles_of u) (role_text role)) (r ∷ rs)
    then ok true
    else err (http 403 (lit "Access denied"))

-- The payload of a verified token; `exp` is checked by the verifier if it is there. The program uses
-- `preferred_username` unchecked, so its type is a parameter; `none` is `undefined` or `null`.
pub record JwtPayload (Name : Type 0) : Type 0 where
  pub sub : Value
  pub exp : Value
  pub preferred_username : Option Name
  pub realm_roles : Value

-- What `validate` returns for such a payload.
pub record ValidatedUser (Name : Type 0) : Type 0 where
  pub username : Name
  pub roles : List Text

-- `typeof v === 'string' && v.trim() !== ''`
abbrev pub filled_text : Value → Option Text
filled_text (str s) = if length (trim s) == 0 then none else some s
filled_text _ = none

-- `Array.isArray(roles) && roles.every((role) => typeof role === 'string')`
unfoldable pub texts_of : Items → Option (List Text)
texts_of nil = some []
texts_of (cons (str s) xs) = elim (texts_of xs) [ none ↦ none | some ts ↦ some (s ∷ ts) ]
texts_of (cons _ xs) = none

-- `payload.realm_access?.roles ?? []`, if it is an array of texts.
unfoldable pub role_names : Value → Option (List Text)
unfolding texts_of
role_names undefined = some []
role_names null = some []
role_names (arr xs) = texts_of xs
role_names _ = none

abbrev pub is_defined : Value → Bool
is_defined undefined = false
is_defined _ = true

abbrev pub unauthorized : Exception
unauthorized = http 401 (lit "Unauthorized")

-- `JwtStrategy.validate`; a subject is a name by `of_subject`.
unfoldable pub validate :
    {Name : Type 0} → (Text → Name) → JwtPayload Name → Result (ValidatedUser Name)
unfolding role_names
validate of_subject payload = elim (filled_text payload.sub) [
  | none ↦ err unauthorized
  | some sub ↦
      if is_defined payload.exp
      then elim (role_names payload.realm_roles) [
        | none ↦ err unauthorized
        | some roles ↦ ok (record {
          username = or_else payload.preferred_username (of_subject sub);
          roles = roles;
        })
      ]
      else err unauthorized
]
