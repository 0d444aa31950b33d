-- ===== src/Order/Controller.antt =====
-- order.controller.ts: the routes of an order behind the role guard and the validation. A request
-- comes with the user that the JWT guard put into it. `get_all_and_override` is the reflector's,
-- `is_uuid` the validator's.
pub mod Invariant
pub mod Access
pub mod Events
use nest_order_api.Common.{
  ℕ, Text, lit, Bool, true, false, not, ◌&&◌, List, [], ◌∷◌, Option, none, some,
}
use nest_order_api.Errors.{Exception, http}
use nest_order_api.Audit.{Store, intercept}
use nest_order_api.Auth.{Role, user, admin, RequestUser, can_activate}
use nest_order_api.Effects.{Result, Action, ◌>>=◌, ◌>>◌, pure, of_result, throw_if}
use nest_order_api.Money.{Decimal}
use nest_order_api.Order.Entity.{OrderResponse}
use nest_order_api.Order.Request.{
  ItemRequest, ItemQuantityUpdateRequest, OrderCreateRequest, is_valid_item_request,
  is_valid_quantity_update, is_valid_order_create_request,
}
use nest_order_api.Order.Event.{World}
use nest_order_api.Order.Service
use nest_order_api.Orm.{Orm}

-- The routes that lead to one order, with their parameters.
pub data Command : Type 0 where
  create : OrderCreateRequest → Command
  find_by_id delete confirm cancel : Text → Command
  add_item : Text → ItemRequest → Command
  update_item_quantity : Text → Text → ItemQuantityUpdateRequest → Command
  remove_item : Text → Text → Command

-- The `@Roles` of the class, and of a handler.
abbrev pub class_roles : Option (List Role)
class_roles = some (user ∷ admin ∷ [])

abbrev pub handler_roles : Command → Option (List Role)
handler_roles (delete _) = some (admin ∷ [])
handler_roles (remove_item _ _) = some (admin ∷ [])
handler_roles (confirm _) = some (admin ∷ [])
handler_roles (cancel _) = some (admin ∷ [])
handler_roles _ = none

-- `getAllAndOverride`, of what the handler and the class carry.
abbrev pub Reflector : Type 0
Reflector = Option (List Role) → Option (List Role) → Option (List Role)

-- The pipes: the parameters are UUIDs, the body is valid.
unfoldable pub is_accepted : (Text → Bool) → Command → Bool
unfolding is_valid_order_create_request is_valid_item_request is_valid_quantity_update
is_accepted is_uuid (create dto) = is_valid_order_create_request is_uuid dto
is_accepted is_uuid (find_by_id id) = is_uuid id
is_accepted is_uuid (delete id) = is_uuid id
is_accepted is_uuid (confirm id) = is_uuid id
is_accepted is_uuid (cancel id) = is_uuid id
is_accepted is_uuid (add_item id dto) = is_uuid id && is_valid_item_request dto
is_accepted is_uuid (update_item_quantity id item_id dto) =
    is_uuid id && is_uuid item_id && is_valid_quantity_update dto
is_accepted is_uuid (remove_item id item_id) = is_uuid id && is_uuid item_id

module _ (dec : Decimal) (orm : Orm) where
  -- The method of the controller.
  unfoldable pub execute : Store → ℕ → Command → Action (World orm.Db) (Option OrderResponse)
  execute store now (create dto) = do pure (some (← Service.create dec orm store now dto))
  execute store now (find_by_id id) = do pure (some (← Service.find_by_id dec orm store now id))
  execute store now (delete id) = do Service.delete dec orm store now id; pure none
  execute store now (confirm id) = do pure (some (← Service.confirm dec orm store now id))
  execute store now (cancel id) = do pure (some (← Service.cancel dec orm store now id))
  execute store now (add_item id dto) = do pure (some (← Service.add_item dec orm store now id dto))
  execute store now (update_item_quantity id item_id dto) = do
    pure (some (← Service.update_item_quantity dec orm store now id item_id dto))
  execute store now (remove_item id item_id) = do
    pure (some (← Service.remove_item dec orm store now id item_id))

  module _ (get_all_and_override : Reflector) (is_uuid : Text → Bool) where
    unfoldable pub handle : RequestUser → ℕ → Command → Action (World orm.Db) (Option OrderResponse)
    unfolding execute
    handle request_user now cmd = do
      of_result
          (can_activate (get_all_and_override (handler_roles cmd) class_roles) (some request_user))
      throw_if (not (is_accepted is_uuid cmd)) (http 400 (lit "Bad Request Exception"))
      execute (intercept (some request_user)) now cmd
