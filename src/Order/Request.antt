-- ===== src/Order/Request.antt =====
-- The requests of the order routes, and what their annotations accept. A price is a number of at
-- most two decimals, counted in hundredths.
use nest_order_api.Common.{ℕ, Text, Bool, ◌&&◌, ◌*◌, leb, length, all, List}
use nest_order_api.Order.Entity.{max_items_per_order, max_unit_price, max_quantity}

pub record ItemRequest : Type 0 where
  pub description : Text
  pub unit_price : ℕ
  pub quantity : ℕ

pub record ItemQuantityUpdateRequest : Type 0 where
  pub quantity : ℕ

pub record OrderCreateRequest : Type 0 where
  pub customer_id : Text
  pub items : List ItemRequest

-- `IsValidQuantity`
abbrev pub is_valid_quantity : ℕ → Bool
is_valid_quantity quantity = leb 1 quantity && leb quantity max_quantity

unfoldable pub is_valid_item_request : ItemRequest → Bool
is_valid_item_request dto =
    leb 1 (length dto.description)
    && leb (length dto.description) 255
    && leb 1 dto.unit_price
    && leb dto.unit_price (max_unit_price * 100)
    && is_valid_quantity dto.quantity

unfoldable pub is_valid_quantity_update : ItemQuantityUpdateRequest → Bool
is_valid_quantity_update dto = is_valid_quantity dto.quantity

-- `is_uuid` is the validator's `IsUUID`.
unfoldable pub is_valid_order_create_request : (Text → Bool) → OrderCreateRequest → Bool
unfolding is_valid_item_request
is_valid_order_create_request is_uuid dto =
    leb 1 (length dto.customer_id)
    && is_uuid dto.customer_id
    && all is_valid_item_request dto.items
    && leb (length dto.items) max_items_per_order
