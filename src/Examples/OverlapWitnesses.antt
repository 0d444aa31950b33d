-- ===== src/Examples/OverlapWitnesses.antt =====
-- Two deliveries of one message that are handled at the same time.
use nest_order_api.Common.{◌≡◌, refl, true, false, List, [], ◌∷◌, length, text_eq, arith}
use nest_order_api.Examples.NotificationWitnesses.{read_back, told}
use nest_order_api.Notification.Consumer.{Message, sent, failed}
use nest_order_api.Notification.Consumer.Overlap.{
  Task, sending, backing_off, Consuming, Event, delivery, sending_ends, backoff_ends, take_task,
  happen, happen_all,
}
use nest_order_api.Notification.Consumer.Overlap.Accounted.{Accounted, happen_all-Accounted}
use nest_order_api.Notification.Consumer.Overlap.Conserved.{census, happen_all-census}
use nest_order_api.Notification.Consumer.Overlap.Drained.{
  load, can_happen, is_drained, proceed, proceed_drains,
}
use nest_order_api.Notification.Publisher.{published}
use nest_order_api.Notification.RecentMessageIds.{has}

abbrev twice : Consuming
twice = record {
  queue = told ∷ told ∷ [];
  in_flight = [];
  sent_message_ids = [];
  mailed = [];
  duplicates = [];
  dead_letters = [];
}

-- The second delivery comes while the first e-mail is sent, and that sending fails once.
abbrev overlapping : List Event
overlapping =
    delivery
    ∷ delivery
    ∷ sending_ends 1 failed
    ∷ sending_ends 1 sent
    ∷ backoff_ends 0
    ∷ delivery
    ∷ []

happen_all-census_example :
    census (λ _. 1) (happen_all read_back overlapping twice) ≡ census (λ _. 1) twice
happen_all-census_example = happen_all-census (λ _. 1) (λ m n. refl) read_back overlapping twice

-- The copy comes back after the other delivery has sent the e-mail, and is dropped.
copy_dropped : length (happen_all read_back overlapping twice).duplicates ≡ 1
unfolding happen_all happen text_eq published
copy_dropped = refl

-- Both are under way before either e-mail is remembered, so two are sent.
both_mailed :
    length
      (happen_all read_back
        (delivery ∷ delivery ∷ sending_ends 0 sent ∷ sending_ends 0 sent ∷ [])
        twice).mailed
    ≡ 2
unfolding happen_all happen text_eq published
both_mailed = refl

happen_all-Accounted_example : Accounted (happen_all read_back overlapping twice)
unfolding has
happen_all-Accounted_example =
    happen_all-Accounted read_back overlapping twice
      (record { few = omega arith; remembered = λ id h. cc; repeated = tt })

-- The oldest task ends first, and every sending fails.
abbrev next_of : List Task → Event
next_of [] = delivery
next_of (sending m ∷ tasks) = sending_ends 0 failed
next_of (backing_off m n ∷ tasks) = backoff_ends 0

abbrev one_by_one : Consuming → Event
one_by_one s = next_of s.in_flight

busy_with :
    (queue : List Message) (tasks : List Task) (s : Consuming)
    → s.queue ≡ queue
    → s.in_flight ≡ tasks
    → is_drained s ≡ false
    → can_happen (next_of tasks) s ≡ true
unfolding is_drained take_task
busy_with [] [] s q t h = absurd (cc (rw (q, t) at h))
busy_with (m ∷ queue) [] s q t h = rw q (rw t refl)
busy_with queue (sending m ∷ tasks) s q t h = rw t refl
busy_with queue (backing_off m n ∷ tasks) s q t h = rw t refl

one_by_one-can_happen : (s : Consuming) → is_drained s ≡ false → can_happen (one_by_one s) s ≡ true
one_by_one-can_happen s h = busy_with s.queue s.in_flight s refl refl h

proceed_drains_example : is_drained (proceed read_back one_by_one (load twice) twice) ≡ true
proceed_drains_example = proceed_drains read_back one_by_one one_by_one-can_happen twice
