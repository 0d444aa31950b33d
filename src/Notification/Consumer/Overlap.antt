-- ===== src/Notification/Consumer/Overlap.antt =====
-- rabbitmq.consumer.ts, while the channel stays open: up to `prefetch` messages are handled at the
-- same time, and one may run while another awaits the end of its sending or of its backoff.
mod Tasks
pub mod Conserved
pub mod Accounted
pub mod Drained
use nest_order_api.Common.{
  ℕ, zero, suc, ◌+◌, Bool, true, false, not, ◌&&◌, List, [], ◌∷◌, ◌++◌, length, ltb, Text, Option,
  none, some, or_else, if◌then◌else◌,
}
use nest_order_api.Notification.Consumer.{
  Message, SendOutcome, sent, refused, failed, max_retries, retried, is_wanted, is_duplicate,
  remember,
}
use nest_order_api.Notification.RecentMessageIds.{RecentMessageIds}
use nest_order_api.Values.{Value}

-- `await this.channel.prefetch(10)`
abbrev pub prefetch : ℕ
prefetch = 10

-- A message that is not yet settled, by what its handling awaits; the backoff knows the retry count.
pub data Task : Type 0 where
  sending : Message → Task
  backing_off : Message → ℕ → Task

-- The queue, the handlings that are under way, and the memory of ids; then the messages that are
-- settled: acknowledged after their e-mail or as a duplicate, or in the dead-letter queue.
pub record Consuming : Type 0 where
  pub queue : List Message
  pub in_flight : List Task
  pub sent_message_ids : RecentMessageIds
  pub mailed : List Message
  pub duplicates : List Message
  pub dead_letters : List Message

abbrev pub bury : Message → Consuming → Consuming
bury message s = record s { dead_letters = message ∷ s.dead_letters }

abbrev pub await : Task → Consuming → Consuming
await task s = record s { in_flight = task ∷ s.in_flight }

-- `handleMessage` up to the `await` of the sending.
unfoldable pub arrive : (Text → Option Value) → Message → Consuming → Consuming
unfolding is_wanted is_duplicate
arrive parse message s =
    if not (is_wanted parse message)
    then bury message s
    else if is_duplicate message s.sent_message_ids
    then record s { duplicates = message ∷ s.duplicates }
    else await (sending message) s

-- From the end of the sending to the end of `handleMessage`, or to the `await` of the backoff.
unfoldable pub after_sending : SendOutcome → Message → Consuming → Consuming
unfolding remember
after_sending sent message s = record s {
  sent_message_ids = remember message s.sent_message_ids;
  mailed = message ∷ s.mailed;
}
after_sending refused message s = bury message s
after_sending failed message s =
    let retry_count = or_else message.retry_count 0 + 1 in
    if ltb max_retries retry_count
    then bury message s
    else await (backing_off message retry_count) s

-- The end of the backoff: the copy goes to the end of the queue, and the message is acknowledged.
abbrev pub after_backoff : Message → ℕ → Consuming → Consuming
after_backoff message retry_count s = record s {
  queue = s.queue ++ retried message retry_count ∷ [];
}

-- The task at a place, and the others.
unfoldable pub take_task : ℕ → List Task → Option (Task × List Task)
take_task i [] = none
take_task zero (task ∷ tasks) = some (task, tasks)
take_task (suc i) (task ∷ tasks) = elim (take_task i tasks) [
  | none ↦ none
  | some found ↦ some (found.0, task ∷ found.1)
]

-- What happens next: the broker delivers a message, or a sending or a backoff ends.
pub data Event : Type 0 where
  delivery : Event
  sending_ends : ℕ → SendOutcome → Event
  backoff_ends : ℕ → Event

-- The task that ends, and what follows; an event that does not fit the task does not happen.
abbrev pub ending : Event → Task → Consuming → Consuming
ending (sending_ends i outcome) (sending message) s = after_sending outcome message s
ending (backoff_ends i) (backing_off message retry_count) s = after_backoff message retry_count s
ending _ task s = await task s

abbrev pub place : Event → ℕ
place delivery = 0
place (sending_ends i outcome) = i
place (backoff_ends i) = i

abbrev pub ended : Event → Consuming → Consuming
ended event s = elim (take_task (place event) s.in_flight) [
  | none ↦ s
  | some found ↦ ending event found.0 (record s { in_flight = found.1 })
]

abbrev pub delivered : (Text → Option Value) → List Message → Consuming → Consuming
delivered parse [] s = s
delivered parse (message ∷ queue) s =
    if ltb (length s.in_flight) prefetch
    then arrive parse message (record s { queue = queue })
    else s

unfoldable pub happen : (Text → Option Value) → Event → Consuming → Consuming
unfolding arrive after_sending take_task
happen parse delivery s = delivered parse s.queue s
happen parse (sending_ends i outcome) s = ended (sending_ends i outcome) s
happen parse (backoff_ends i) s = ended (backoff_ends i) s

unfoldable pub happen_all : (Text → Option Value) → List Event → Consuming → Consuming
happen_all parse [] s = s
happen_all parse (event ∷ events) s = happen_all parse events (happen parse event s)
