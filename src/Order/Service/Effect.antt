-- ===== src/Order/Service/Effect.antt =====
-- What a method of the service can do to the database: nothing, or one write of one order row.
use nest_order_api.Common.{
  ℕ, Text, ◌≡◌, ◌≢◌, ◌<◌, true, not, List, [], ◌∷◌, ◌++◌, length, keep, all, ◌≤◌, none, some,
}
use nest_order_api.Audit.{Store, current_username}
use nest_order_api.Money.{Decimal}
use nest_order_api.Customer.Entity.{Customer}
use nest_order_api.Order.Status.{OrderStatus, opened, confirmed}
use nest_order_api.Order.Status.Reach.{Step}
use nest_order_api.Order.Entity.{Item, Order, has_id, max_items_per_order}
use nest_order_api.Order.Request.{
  ItemRequest, OrderCreateRequest, is_valid_item_request, is_valid_quantity,
}
use nest_order_api.Order.Guards.{
  to_item_entity, set_quantity, with_status, with_total, new_order_data, can_access,
}
use nest_order_api.Orm.{Orm, Deletion}
use nest_order_api.Orm.Laws.{SameOrder, SavedRow, DeletedRow, OrderWritten}

-- How the items of an order may be edited.
pub data Edit (before after : List Item) : Type 0 where
  appended :
      (dto : ItemRequest)
      → is_valid_item_request dto ≡ true
      → length before < max_items_per_order
      → after ≡ before ++ to_item_entity dto ∷ []
      → Edit before after
  requantified :
      (id : Text) (quantity : ℕ)
      → is_valid_quantity quantity ≡ true
      → after ≡ set_quantity id quantity before
      → Edit before after
  dropped : (id : Text) → after ≡ keep (λ it. not (has_id id it)) before → Edit before after

module _ (dec : Decimal) (orm : Orm) where
  open orm use {Db, order_at, customer_at}

  -- The row of `s.id` was `old`, active and open to the user.
  pub record Held (store : Store) (db : Db) (old s : Order) : Type 0 where
    pub was : order_at db s.id ≡ some old
    pub active : old.deleted_at ≡ none
    pub accessible : can_access store old ≡ true

  pub data Effect (store : Store) (db db' : Db) : Type 0 where
    same : db' ≡ db → Effect store db db'
    inserted :
        (dto : OrderCreateRequest) (c : Customer) (s : Order)
        → all is_valid_item_request dto.items ≡ true
        → length dto.items ≤ max_items_per_order
        → customer_at db dto.customer_id ≡ some c
        → c.deleted_at ≡ none
        → order_at db s.id ≡ none
        → SameOrder (new_order_data dec dto c) s.details
        → s.deleted_at ≡ none
        → s.created_by ≡ current_username store
        → OrderWritten orm db db' s
        → Effect store db db'
    edited :
        (old s : Order) (items : List Item)
        → Held store db old s
        → old.status ≡ opened
        → Edit old.items items
        → SameOrder (with_total dec old items).details s.details
        → SavedRow old.versioned s.versioned
        → OrderWritten orm db db' s
        → Effect store db db'
    moved :
        (old s : Order) (target : OrderStatus)
        → Held store db old s
        → Step old.status target
        → (target ≡ confirmed → old.items ≢ [])
        → SameOrder (with_status old target).details s.details
        → SavedRow old.versioned s.versioned
        → OrderWritten orm db db' s
        → Effect store db db'
    removed :
        (old s : Order) (d : Deletion)
        → Held store db old s
        → d.deleted_by ≡ current_username store
        → s.details ≡ old.details
        → DeletedRow d old.versioned s.versioned
        → OrderWritten orm db db' s
        → Effect store db db'
