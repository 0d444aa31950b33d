-- ===== src/Order/Entity.antt =====
-- order.entity.ts, item.entity.ts, order.constants.ts and the response bodies.
pub mod Total
use nest_order_api.Common.{ℕ, Text, ◌*◌, ◌≤◌, Bool, List, map, Option, none, some, text_eq, false}
use mathlib.Core.List.{foldl}
use nest_order_api.Audit.{Versioned}
use nest_order_api.Money.{Decimal}
use nest_order_api.Customer.Entity.{Customer, CustomerResponse, customer_response}
use nest_order_api.Order.Status.{OrderStatus, opened, same_status}

abbrev pub max_items_per_order : ℕ
max_items_per_order = 200

abbrev pub max_unit_price : ℕ
max_unit_price = 1_000_000

abbrev pub max_quantity : ℕ
max_quantity = 10_000

-- The columns of an item, without its identity.
pub record Line : Type 0 where
  pub description : Text
  pub unit_price : Text
  pub quantity : ℕ

-- `id` is undefined until the item is saved.
pub record Item : Type 0 where
  pub id : Option Text
  pub line : Line
  pub open line use *

-- What the service sets of an order; the rest is the database's and the subscriber's.
pub record OrderData : Type 0 where
  pub customer : Customer
  pub items : List Item
  pub total : Text
  pub status : OrderStatus

pub record Order : Type 0 where
  pub id : Text
  pub details : OrderData
  pub open details use *
  pub versioned : Versioned
  pub open versioned use *

abbrev pub lines : List Item → List Line
lines items = map (λ it. it.line) items

-- `item.id === id`
abbrev pub has_id : Text → Item → Bool
has_id id it = elim it.id [ none ↦ false | some i ↦ text_eq i id ]

unfoldable pub is_editable : OrderData → Bool
is_editable o = same_status o.status opened

pub record ItemResponse : Type 0 where
  pub id : Option Text
  pub description : Text
  pub unit_price : Text
  pub quantity : ℕ
  pub subtotal : Text

pub record OrderResponse : Type 0 where
  pub id : Text
  pub customer : CustomerResponse
  pub items : List ItemResponse
  pub total : Text
  pub status : OrderStatus
  pub created_at : ℕ
  pub updated_at : ℕ

module _ (dec : Decimal) where
  open dec use {Num, of_text, nought, plus, times, to_fixed}

  abbrev pub add_item : Num → Item → Num
  add_item acc it = plus acc (times (of_text it.unit_price) it.quantity)

  unfoldable pub calculate_total : OrderData → OrderData
  calculate_total o = record o { total = to_fixed (foldl add_item nought o.items) }

  unfoldable pub subtotal : Line → Text
  subtotal l = to_fixed (times (of_text l.unit_price) l.quantity)

  -- `ItemResponseDto.from`
  unfoldable pub item_response : Item → ItemResponse
  unfolding subtotal
  item_response it = record {
    id = it.id;
    description = it.description;
    unit_price = it.unit_price;
    quantity = it.quantity;
    subtotal = subtotal it.line;
  }

  -- `OrderResponseDto.from`
  unfoldable pub order_response : Order → OrderResponse
  unfolding item_response customer_response
  order_response o = record {
    id = o.id;
    customer = customer_response o.customer;
    items = map item_response o.items;
    total = o.total;
    status = o.status;
    created_at = o.created_at;
    updated_at = o.updated_at;
  }
