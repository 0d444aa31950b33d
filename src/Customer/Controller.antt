-- ===== src/Customer/Controller.antt =====
-- customer.controller.ts: the routes of a customer behind the role guard and the validation.
-- `is_uuid` and `is_email` are the validator's.
pub mod Invariant
use nest_order_api.Common.{
  ℕ, Text, lit, Bool, true, false, not, ◌&&◌, List, [], ◌∷◌, Option, none, some,
}
use nest_order_api.Errors.{Exception, http}
use nest_order_api.Audit.{Store, intercept}
use nest_order_api.Auth.{Role, user, admin, RequestUser, can_activate}
use nest_order_api.Effects.{Result, Action, ◌>>=◌, ◌>>◌, pure, of_result, throw_if}
use nest_order_api.Customer.Entity.{CustomerResponse}
use nest_order_api.Customer.Request.{CustomerRequest, transform, is_valid_customer_request}
use nest_order_api.Customer.Service
use nest_order_api.Order.Controller.{Reflector}
use nest_order_api.Order.Event.{World}
use nest_order_api.Orm.{Orm}

pub data Command : Type 0 where
  create : CustomerRequest → Command
  find_by_id delete : Text → Command
  update : Text → CustomerRequest → Command

abbrev pub class_roles : Option (List Role)
class_roles = some (user ∷ admin ∷ [])

abbrev pub handler_roles : Command → Option (List Role)
handler_roles (find_by_id _) = none
handler_roles _ = some (admin ∷ [])

-- The bodies as the validation sees them: transformed.
unfoldable pub transformed : Command → Command
unfolding transform
transformed (create dto) = create (transform dto)
transformed (update id dto) = update id (transform dto)
transformed cmd = cmd

unfoldable pub is_accepted : (Text → Bool) → (Text → Bool) → Command → Bool
unfolding is_valid_customer_request
is_accepted is_uuid is_email (create dto) = is_valid_customer_request is_email dto
is_accepted is_uuid is_email (find_by_id id) = is_uuid id
is_accepted is_uuid is_email (delete id) = is_uuid id
is_accepted is_uuid is_email (update id dto) = is_uuid id && is_valid_customer_request is_email dto

module _ (orm : Orm) where
  unfoldable pub execute : Store → ℕ → Command → Action (World orm.Db) (Option CustomerResponse)
  execute store now (create dto) = do pure (some (← Service.create orm store now dto))
  execute store now (find_by_id id) = do pure (some (← Service.find_by_id orm store now id))
  execute store now (update id dto) = do pure (some (← Service.update orm store now id dto))
  execute store now (delete id) = do Service.delete orm store now id; pure none

  module _ (get_all_and_override : Reflector) (is_uuid is_email : Text → Bool) where
    unfoldable pub handle :
        RequestUser → ℕ → Command → Action (World orm.Db) (Option CustomerResponse)
    unfolding execute transformed
    handle request_user now cmd = do
      of_result
          (can_activate (get_all_and_override (handler_roles cmd) class_roles) (some request_user))
      throw_if (not (is_accepted is_uuid is_email (transformed cmd)))
          (http 400 (lit "Bad Request Exception"))
      execute (intercept (some request_user)) now (transformed cmd)
