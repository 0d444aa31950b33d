-- ===== src/Notification/Publisher.antt =====
-- order-status.listener.ts and rabbitmq.publisher.ts: an event becomes a message. `to_iso` prints a
-- date, `stringify` is `JSON.stringify`, and the id of the message is a random UUID.
use nest_order_api.Common.{
  ℕ, Text, lit, text_eq, ◌≡◌, refl, Bool, true, Option, none, some, List, [], ◌∷◌, ◌++◌,
  if◌then◌else◌,
}
use nest_order_api.Notification.Consumer.{Message, is_order_status_changed_event, is_wanted}
use nest_order_api.Order.Event.{OrderStatusChangedEvent}
use nest_order_api.Order.Status.{status_text}
use nest_order_api.Values.{Value, str, obj, field, end}

module _ (to_iso : ℕ → Text) (stringify : Value → Text) where
  -- The event as JSON sees it.
  abbrev pub event_value : OrderStatusChangedEvent → Value
  event_value event = obj (
      field (lit "orderId") (str event.order_id) (
        field (lit "customerEmail") (str event.customer_email) (
          field (lit "customerName") (str event.customer_name) (
            field (lit "oldStatus") (str (status_text event.old_status)) (
              field (lit "newStatus") (str (status_text event.new_status)) (
                field (lit "totalAmount") (str event.total_amount)
                  (field (lit "changedAt") (str (to_iso event.changed_at)) end)))))))

  -- `publish`
  unfoldable pub published : Text → OrderStatusChangedEvent → Message
  published message_id event = record {
    content = stringify (event_value event);
    message_id = some message_id;
    retry_count = none;
    other_headers = end;
  }

  -- `handleOrderStatusChanged`: without a channel the event is only logged.
  unfoldable pub handle_order_status_changed :
      Bool → Text → OrderStatusChangedEvent → List Message → List Message
  unfolding published
  handle_order_status_changed connected message_id event queue =
      if connected then queue ++ published message_id event ∷ [] else queue

  -- Every event that is published is a message that the consumer takes for an event, if `JSON.parse`
  -- reads what `JSON.stringify` printed of it.
  pub published-is_wanted :
      (parse : Text → Option Value) (message_id : Text) (event : OrderStatusChangedEvent)
      → parse (stringify (event_value event)) ≡ some (event_value event)
      → is_wanted parse (published message_id event) ≡ true
  unfolding is_wanted published is_order_status_changed_event text_eq
  published-is_wanted parse message_id event h = rw (h, is_wanted) refl
