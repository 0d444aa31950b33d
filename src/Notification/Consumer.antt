-- ===== src/Notification/Consumer.antt =====
-- rabbitmq.consumer.ts and rabbitmq.constants.ts: what the consumer does with a message. `parse` is
-- `JSON.parse` of the message's text.
pub mod Handled
pub mod Queue
pub mod Overlap
use nest_order_api.Common.{
  ℕ, suc, ◌+◌, Text, lit, text_eq, Bool, true, false, not, ◌&&◌, List, [], ◌∷◌, ◌++◌, map, Option,
  none, some, or_else, is_some, ltb, if◌then◌else◌,
}
use nest_order_api.Notification.RecentMessageIds.{RecentMessageIds, has, add}
use nest_order_api.Values.{
  Value, undefined, null, bool, num, date, str, arr, obj, Items, nil, cons, Fields, end, field,
}

abbrev pub max_retries : ℕ
max_retries = 3

abbrev pub remembered_messages : ℕ
remembered_messages = 10_000

-- `retry_count` is the header `x-retry-count`; the other headers go on unread.
pub record Message : Type 0 where
  pub content : Text
  pub message_id : Option Text
  pub retry_count : Option ℕ
  pub other_headers : Fields

-- `fields[name]`
abbrev pub property : Text → Fields → Value
property name end = undefined
property name (field n v fs) = if text_eq n name then v else property name fs

-- `typeof v === 'string'`
abbrev pub is_string : Value → Bool
is_string (str _) = true
is_string _ = false

-- `isOrderStatusChangedEvent`; an array and a date have no such properties.
unfoldable pub is_order_status_changed_event : Value → Bool
is_order_status_changed_event (obj event) =
    is_string (property (lit "orderId") event)
    && is_string (property (lit "customerEmail") event)
    && is_string (property (lit "customerName") event)
    && is_string (property (lit "oldStatus") event)
    && is_string (property (lit "newStatus") event)
    && is_string (property (lit "totalAmount") event)
    && is_string (property (lit "changedAt") event)
is_order_status_changed_event _ = false

-- How `sendOrderStatusEmail` ends: it returns, throws a `PermanentEmailError`, or throws otherwise.
pub data SendOutcome : Type 0 where
  sent refused failed : SendOutcome

-- What `this.channel` is, seen from a message: the channel that delivered it, one of a later
-- connection, or none.
pub data Channel : Type 0 where
  delivering replaced closed : Channel

-- What the consumer tells the broker. `nack` does not put the message back, so the queue's arguments
-- lead it to the dead-letter queue. `stale` is an `ack` or a `nack` with the message's tag over a
-- channel that did not deliver it: it does not settle this message, but may settle another one with
-- that tag, or close that channel.
pub data Reply : Type 0 where
  ack nack stale : Reply
  send_to_queue : Message → Reply

-- What happens while a message is handled: how the sending ends, and the channel when the message
-- arrives, after the sending and after the wait. Without one `requireChannel` throws.
pub record Circumstances : Type 0 where
  pub outcome : SendOutcome
  pub at_arrival : Channel
  pub after_sending : Channel
  pub after_wait : Channel

-- What the handling has told the broker, whether an e-mail was sent, and the ids then remembered.
pub record Handling : Type 0 where
  pub replies : List Reply
  pub mailed : Bool
  pub sent_message_ids : RecentMessageIds

-- What a call comes to over a channel of a later connection.
abbrev pub misdirected : Reply → Reply
misdirected (send_to_queue message) = send_to_queue message
misdirected _ = stale

-- The calls of `requireChannel()`: what throws says nothing.
abbrev pub through : Channel → List Reply → List Reply
through delivering replies = replies
through replaced replies = map misdirected replies
through closed replies = []

-- The copy that goes to the end of the queue.
abbrev pub retried : Message → ℕ → Message
retried message retry_count = record message { retry_count = some retry_count }

-- `retryOrDeadLetter`: the check of the retries is before the wait.
unfoldable pub retry_or_dead_letter : Circumstances → Message → List Reply
retry_or_dead_letter now message =
    let retry_count = or_else message.retry_count 0 + 1 in
    if ltb max_retries retry_count
    then through now.after_sending (nack ∷ [])
    else through now.after_wait (send_to_queue (retried message retry_count) ∷ ack ∷ [])

-- `messageId && this.sentMessageIds.has(messageId)`: an empty id is none.
abbrev pub given_id : Option Text → Option Text
given_id none = none
given_id (some []) = none
given_id (some (c ∷ s)) = some (c ∷ s)

unfoldable pub is_duplicate : Message → RecentMessageIds → Bool
unfolding has
is_duplicate message ids = elim (given_id message.message_id) [
  | none ↦ false
  | some id ↦ has id ids
]

-- `if (messageId) this.sentMessageIds.add(messageId)`
unfoldable pub remember : Message → RecentMessageIds → RecentMessageIds
unfolding add
remember message ids = elim (given_id message.message_id) [
  | none ↦ ids
  | some id ↦ add remembered_messages id ids
]

-- The acknowledgement in the `try`; what throws there is caught, and leads to the retry.
abbrev pub settle_sent : Channel → List Reply → List Reply
settle_sent closed retry = retry
settle_sent channel retry = through channel (ack ∷ [])

-- The `try` and its `catch`: an e-mail that was sent is remembered before the message is
-- acknowledged, and without a channel the acknowledgement throws into the same `catch`.
unfoldable pub send_and_settle : Circumstances → Message → RecentMessageIds → Handling
unfolding remember retry_or_dead_letter
send_and_settle now message ids = elim now.outcome [
  | sent ↦ record {
    replies = settle_sent now.after_sending (retry_or_dead_letter now message);
    mailed = true;
    sent_message_ids = remember message ids;
  }
  | refused ↦ record {
    replies = through now.after_sending (nack ∷ []);
    mailed = false;
    sent_message_ids = ids;
  }
  | failed ↦ record {
    replies = retry_or_dead_letter now message;
    mailed = false;
    sent_message_ids = ids;
  }
]

abbrev pub no_mail : RecentMessageIds → List Reply → Handling
no_mail ids replies = record { replies = replies; mailed = false; sent_message_ids = ids }

-- The payload is an event.
unfoldable pub is_wanted : (Text → Option Value) → Message → Bool
unfolding is_order_status_changed_event
is_wanted parse message = elim (parse message.content) [
  | none ↦ false
  | some payload ↦ is_order_status_changed_event payload
]

-- `handleMessage`: a text that is no JSON and a payload that is no event are dealt with alike.
unfoldable pub handle_message :
    (Text → Option Value) → Circumstances → Message → RecentMessageIds → Handling
unfolding is_wanted is_duplicate send_and_settle
handle_message parse now message ids =
    if not (is_wanted parse message)
    then no_mail ids (through now.at_arrival (nack ∷ []))
    else if is_duplicate message ids
    then no_mail ids (through now.at_arrival (ack ∷ []))
    else send_and_settle now message ids
