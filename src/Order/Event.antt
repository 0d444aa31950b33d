-- ===== src/Order/Event.antt =====
-- order-status-changed.event.ts, and the state that the services act on: the database, and the
-- events that were handed to the emitter, the latest first.
use nest_order_api.Common.{ℕ, Text, List}
use nest_order_api.Effects.{Action}
use nest_order_api.Order.Status.{OrderStatus}

pub record OrderStatusChangedEvent : Type 0 where
  pub order_id : Text
  pub customer_email : Text
  pub customer_name : Text
  pub old_status : OrderStatus
  pub new_status : OrderStatus
  pub total_amount : Text
  pub changed_at : ℕ

pub record World (Db : Type 0) : Type 0 where
  pub db : Db
  pub emitted : List OrderStatusChangedEvent

-- An action on the database alone.
abbrev pub on_db : {Db A : Type 0} → Action Db A → Action (World Db) A
on_db m w = let (r, db') = m w.db in (r, record w { db = db' })
