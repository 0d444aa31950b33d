-- ===== src/Orm.antt =====
-- The ORM and the database behind it, as far as the services call them: an interface, and (below)
-- the documented behaviour that the services rely on. `customer_at` and `order_at` observe the
-- committed row of a key, an order with its items and its customer as the eager relations load
-- them. Each operation runs alone, and a read does not fail.
pub mod Laws
use nest_order_api.Common.{ℕ, Text, Bool, Option, none, some, is_some, if◌then◌else◌, text_eq}
use nest_order_api.Values.{Optional, unset, cleared, given}
use nest_order_api.Audit.{Audit}
use nest_order_api.Effects.{Result, Action}
use nest_order_api.Customer.Entity.{CustomerData, Customer}
use nest_order_api.Order.Entity.{OrderData, Order}

-- The columns of a soft delete.
pub record Deletion : Type 0 where
  pub deleted_at : ℕ
  pub deleted_by : Text

pub data LockMode : Type 0 where
  pessimistic_read pessimistic_write : LockMode

-- `where: { id, deletedAt: IsNull() }` on the row of the id.
abbrev pub active_customer : Option Customer → Option Customer
active_customer none = none
active_customer (some c) = if is_some c.deleted_at then none else some c

abbrev pub active_order : Option Order → Option Order
active_order none = none
active_order (some o) = if is_some o.deleted_at then none else some o

-- The audit columns as the subscriber leaves them before a write.
abbrev pub Hook : Type 0
Hook = Audit → Audit

pub record Orm : Type 1 where
  pub Db : Type 0
  pub customer_at : Db → Text → Option Customer
  pub order_at : Db → Text → Option Order
  pub find_customer : Text → Db → Option Customer
  pub find_order : Text → Db → Option Order
  pub lock_customer : LockMode → Text → Db → Option Customer
  pub customer_exists : (Customer → Bool) → Db → Bool
  pub order_exists : (Order → Bool) → Db → Bool
  pub insert_customer : Hook → CustomerData → Action Db Customer
  pub save_customer : Hook → Customer → Action Db Customer
  pub update_customer : Text → Deletion → Action Db (Unit {0})
  pub insert_order : Hook → OrderData → Action Db Order
  pub save_order : Hook → Order → Action Db Order
  pub update_order : Text → Deletion → Action Db (Unit {0})
  pub transaction : {A : Type 0} → Action Db A → Action Db A
