-- ===== src/Order/Guards.antt =====
-- order.service.ts: the checks that throw, and the entities that the service builds.
use nest_order_api.Common.{
  ℕ, Text, lit, ◌++◌, Bool, not, ◌||◌, List, [], ◌∷◌, map, find, none, some, if◌then◌else◌, text_eq,
}
use nest_order_api.Values.{field, end, str, one_field}
use nest_order_api.Errors.{
  resource_not_found_item, validation_constraint_violation, validation_order_empty,
  validation_order_not_editable, validation_order_invalid_status_transition, Exception, domain,
  invalid_input_exception, resource_not_found_exception,
}
use nest_order_api.Audit.{
  Store, auditable, unaudited, before_insert, before_update, is_system_context,
  is_current_user_admin, current_username,
}
use nest_order_api.Effects.{ok, err, Action, throw_if, of_result}
use nest_order_api.Money.{Decimal, print_cents}
use nest_order_api.Customer.Entity.{Customer}
use nest_order_api.Order.Status.{OrderStatus, opened, status_text, can_transition}
use nest_order_api.Order.Entity.{Item, OrderData, Order, has_id, is_editable, calculate_total}
use nest_order_api.Order.Request.{ItemRequest, OrderCreateRequest}
use nest_order_api.Orm.{Hook}

-- What the subscriber does to the audit columns of an entity.
abbrev pub insert_hook : Store → Hook
insert_hook store a = elim (before_insert store (auditable a)) [ auditable b ↦ b | unaudited ↦ a ]

abbrev pub update_hook : Store → Hook
update_hook store a = elim (before_update store (some (auditable a))) [
  | some s ↦ elim s [ auditable b ↦ b | unaudited ↦ a ]
  | none ↦ a
]

unfoldable pub to_item_entity : ItemRequest → Item
to_item_entity dto = record {
  id = none;
  line = record {
    description = dto.description;
    unit_price = print_cents dto.unit_price;
    quantity = dto.quantity;
  };
}

-- `item.quantity = quantity` on the first item of the id.
unfoldable pub set_quantity : Text → ℕ → List Item → List Item
set_quantity id quantity [] = []
set_quantity id quantity (it ∷ items) =
    if has_id id it
    then record it { line = record it.line { quantity = quantity } } ∷ items
    else it ∷ set_quantity id quantity items

abbrev pub not_editable : Order → Exception
not_editable order = domain (
    invalid_input_exception validation_order_not_editable
      (lit "Order " ++ order.id ++ lit " is not editable in status " ++ status_text order.status)
      (field (lit "orderId") (str order.id)
        (field (lit "status") (str (status_text order.status)) end)))

abbrev pub invalid_transition : Order → OrderStatus → Exception
invalid_transition order target = domain (
    invalid_input_exception validation_order_invalid_status_transition
      (lit "Order "
        ++ order.id
        ++ lit " cannot transition from "
        ++ status_text order.status
        ++ lit " to "
        ++ status_text target)
      (field (lit "orderId") (str order.id) (
        field (lit "from") (str (status_text order.status))
          (field (lit "to") (str (status_text target)) end))))

abbrev pub item_not_found : Text → Exception
item_not_found item_id = domain (
    resource_not_found_exception resource_not_found_item
      (lit "Item " ++ item_id ++ lit " not found") (one_field (lit "itemId") item_id))

abbrev pub order_empty : Text → Exception
order_empty order_id = domain (
    invalid_input_exception validation_order_empty (lit "Order " ++ order_id ++ lit " has no items")
      (one_field (lit "orderId") order_id))

abbrev pub order_full : Text → Exception
order_full order_id = domain (
    invalid_input_exception validation_constraint_violation
      (lit "Order " ++ order_id ++ lit " already has the maximum number of items")
      (one_field (lit "orderId") order_id))

-- `findItemOrThrow`
unfoldable pub find_item_or_throw : {S : Type 0} → Order → Text → Action S Item
find_item_or_throw order item_id = of_result (elim (find (has_id item_id) order.items) [
  | none ↦ err (item_not_found item_id)
  | some it ↦ ok it
])

unfoldable pub ensure_order_is_editable_or_throw : {S : Type 0} → Order → Action S (Unit {0})
unfolding is_editable
ensure_order_is_editable_or_throw order =
    throw_if (not (is_editable order.details)) (not_editable order)

unfoldable pub ensure_transition_allowed_or_throw :
    {S : Type 0} → Order → OrderStatus → Action S (Unit {0})
ensure_transition_allowed_or_throw order target =
    throw_if (not (can_transition order.status target)) (invalid_transition order target)

abbrev pub with_items : Order → List Item → Order
with_items o items = record o { details = record o.details { items = items } }

abbrev pub with_status : Order → OrderStatus → Order
with_status o status = record o { details = record o.details { status = status } }

unfoldable pub can_access : Store → Order → Bool
unfolding is_system_context is_current_user_admin current_username
can_access store order =
    is_system_context store
    || is_current_user_admin store
    || text_eq order.created_by (current_username store)

module _ (dec : Decimal) where
  -- `orders.create({ customer, status: OPEN, items })` with its total; the total that stands first
  -- is never read.
  unfoldable pub new_order_data : OrderCreateRequest → Customer → OrderData
  unfolding to_item_entity calculate_total
  new_order_data dto customer = calculate_total dec (record {
    customer = customer;
    items = map to_item_entity dto.items;
    total = [];
    status = opened;
  })

  -- `order.items = items; order.calculateTotal()`
  unfoldable pub with_total : Order → List Item → Order
  unfolding calculate_total
  with_total order items =
      let changed = with_items order items in
      record changed { details = calculate_total dec changed.details }
