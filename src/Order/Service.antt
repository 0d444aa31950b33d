-- ===== src/Order/Service.antt =====
-- order.service.ts: the methods that read and write orders, for the user of `store` at time `now`.
pub mod Effect
pub mod Loaded
pub mod Methods
pub mod Changes
pub mod Edits
pub mod Consistent
pub mod History
pub mod Events
use nest_order_api.Common.{
  ℕ, Text, lit, ◌++◌, Bool, true, false, not, List, [], ◌∷◌, map, length, leb, ◌==◌, keep, none,
  some, if◌then◌else◌,
}
use nest_order_api.StringUtils.{is_not_blank}
use nest_order_api.Errors.{resource_not_found_order}
use nest_order_api.Audit.{Store}
use nest_order_api.Effects.{Result, Action, ◌>>=◌, ◌>>◌, pure, throw_if, modify}
use nest_order_api.Money.{Decimal}
use nest_order_api.Customer.Entity.{Customer}
use nest_order_api.Order.Status.{OrderStatus, opened, confirmed, canceled}
use nest_order_api.Order.Entity.{
  Item, OrderData, Order, has_id, calculate_total, max_items_per_order, OrderResponse,
  order_response,
}
use nest_order_api.Order.Request.{ItemRequest, ItemQuantityUpdateRequest, OrderCreateRequest}
use nest_order_api.Order.Event.{OrderStatusChangedEvent, World, on_db}
use nest_order_api.Order.Guards.{
  insert_hook, update_hook, to_item_entity, set_quantity, order_empty, order_full,
  find_item_or_throw, ensure_order_is_editable_or_throw, ensure_transition_allowed_or_throw,
  with_status, with_total, new_order_data, can_access,
}
use nest_order_api.Orm.{Orm, pessimistic_read}
use nest_order_api.Crud.{find_entity_by_id_or_throw, soft_delete}
use nest_order_api.Customer.Lock.{lock_active_or_throw}

module _ (dec : Decimal) (orm : Orm) (store : Store) (now : ℕ) where
  open orm use {Db, find_order, insert_order, save_order, update_order, transaction}

  unfoldable pub find_order_or_throw : Text → Action (World Db) Order
  unfolding find_entity_by_id_or_throw can_access
  find_order_or_throw id = on_db (
      find_entity_by_id_or_throw (lit "Order") resource_not_found_order find_order
        (can_access store) id)

  -- The callback of the transaction in `create`.
  unfoldable pub create_in_transaction : OrderCreateRequest → Action Db Order
  unfolding lock_active_or_throw
  create_in_transaction dto = do
    customer ← lock_active_or_throw orm dto.customer_id pessimistic_read
    insert_order (insert_hook store) (new_order_data dec dto customer)

  unfoldable pub create : OrderCreateRequest → Action (World Db) OrderResponse
  create dto = do
    saved ← on_db (transaction (create_in_transaction dto))
    pure (order_response dec saved)

  unfoldable pub find_by_id : Text → Action (World Db) OrderResponse
  unfolding find_order_or_throw
  find_by_id id = do pure (order_response dec (← find_order_or_throw id))

  unfoldable pub delete : Text → Action (World Db) (Unit {0})
  unfolding find_order_or_throw soft_delete
  delete id = do find_order_or_throw id; on_db (soft_delete store now update_order id)

  abbrev pub save : Order → Action (World Db) Order
  save order = on_db (save_order (update_hook store) order)

  -- `const saved = await this.repository.save(order); … return OrderResponseDto.from(saved)`
  unfoldable pub save_and_respond : Order → Action (World Db) OrderResponse
  save_and_respond order = do saved ← save order; pure (order_response dec saved)

  unfoldable pub add_item : Text → ItemRequest → Action (World Db) OrderResponse
  unfolding find_order_or_throw ensure_order_is_editable_or_throw to_item_entity
  add_item order_id dto = do
    order ← find_order_or_throw order_id
    ensure_order_is_editable_or_throw order
    throw_if (leb max_items_per_order (length order.items)) (order_full order_id)
    save_and_respond (with_total dec order (order.items ++ to_item_entity dto ∷ []))

  unfoldable pub update_item_quantity :
      Text → Text → ItemQuantityUpdateRequest → Action (World Db) OrderResponse
  unfolding find_order_or_throw ensure_order_is_editable_or_throw find_item_or_throw set_quantity
  update_item_quantity order_id item_id dto = do
    order ← find_order_or_throw order_id
    ensure_order_is_editable_or_throw order
    find_item_or_throw order item_id
    save_and_respond (with_total dec order (set_quantity item_id dto.quantity order.items))

  unfoldable pub remove_item : Text → Text → Action (World Db) OrderResponse
  unfolding find_order_or_throw ensure_order_is_editable_or_throw find_item_or_throw
  remove_item order_id item_id = do
    order ← find_order_or_throw order_id
    ensure_order_is_editable_or_throw order
    find_item_or_throw order item_id
    save_and_respond (with_total dec order (keep (λ it. not (has_id item_id it)) order.items))

  -- The event that a change of status emits, if the customer has an address.
  unfoldable pub notify : OrderStatus → OrderStatus → Order → Action (World Db) (Unit {0})
  unfolding is_not_blank
  notify old_status new_status saved =
      if is_not_blank (some saved.customer.email)
      then modify (λ w. record w {
        emitted =
            record {
              order_id = saved.id;
              customer_email = saved.customer.email;
              customer_name = saved.customer.name;
              old_status = old_status;
              new_status = new_status;
              total_amount = saved.total;
              changed_at = now;
            }
            ∷ w.emitted;
      })
      else pure tt

  unfoldable pub change_status : Order → OrderStatus → Action (World Db) OrderResponse
  unfolding notify
  change_status order new_status = do
    saved ← save (with_status order new_status)
    notify order.status new_status saved
    pure (order_response dec saved)

  unfoldable pub confirm : Text → Action (World Db) OrderResponse
  unfolding find_order_or_throw ensure_transition_allowed_or_throw change_status
  confirm order_id = do
    order ← find_order_or_throw order_id
    ensure_transition_allowed_or_throw order confirmed
    throw_if (length order.items == 0) (order_empty order_id)
    change_status order confirmed

  unfoldable pub cancel : Text → Action (World Db) OrderResponse
  unfolding find_order_or_throw ensure_transition_allowed_or_throw change_status
  cancel order_id = do
    order ← find_order_or_throw order_id
    ensure_transition_allowed_or_throw order canceled
    change_status order canceled
