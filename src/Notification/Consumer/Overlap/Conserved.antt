-- ===== src/Notification/Consumer/Overlap/Conserved.antt =====
-- No message is lost or doubled, in whatever order the handlings run.
use nest_order_api.Common.{
  ℕ, ◌+◌, ◌≡◌, refl, ap, ◌∙◌, List, [], ◌∷◌, length, ltb, Text, Option, inl, inr, arith, Bool-cases,
  Option-cases,
}
use nest_order_api.Notification.Consumer.{Message, SendOutcome, sent, refused, failed, retried}
use nest_order_api.Notification.Consumer.Overlap.{
  prefetch, Task, sending, backing_off, Consuming, arrive, after_sending, after_backoff, take_task,
  Event, delivery, sending_ends, backoff_ends, place, ending, ended, delivered, happen, happen_all,
}
use nest_order_api.Notification.Consumer.Overlap.Tasks.{summed, summed-append, summed-take_task}
use nest_order_api.Values.{Value}

abbrev pub message_of : Task → Message
message_of (sending message) = message
message_of (backing_off message retry_count) = message

module _ (f : Message → ℕ) where
  -- All messages, each counted by `f`: waiting, under way and settled.
  unfoldable pub census : Consuming → ℕ
  unfolding summed
  census s =
      summed f s.queue
      + summed (λ t. f (message_of t)) s.in_flight
      + summed f s.mailed
      + summed f s.duplicates
      + summed f s.dead_letters

  arrive-census :
      (parse : Text → Option Value) (m : Message) (s : Consuming)
      → census (arrive parse m s) ≡ f m + census s
  unfolding arrive census summed
  arrive-census parse m s = ground arith

  after_sending-census :
      (outcome : SendOutcome) (m : Message) (s : Consuming)
      → census (after_sending outcome m s) ≡ f m + census s
  unfolding after_sending census summed
  after_sending-census sent m s = omega arith
  after_sending-census refused m s = omega arith
  after_sending-census failed m s = ground arith

  module _ (retry : (m : Message) (n : ℕ) → f (retried m n) ≡ f m) where
    after_backoff-census :
        (m : Message) (n : ℕ) (s : Consuming) → census (after_backoff m n s) ≡ f m + census s
    unfolding census summed
    after_backoff-census m n s =
        omega (arith, summed-append f s.queue (retried m n ∷ []), retry m n)

    ending-census :
        (event : Event) (t : Task) (s : Consuming)
        → census (ending event t s) ≡ f (message_of t) + census s
    unfolding census summed
    ending-census (sending_ends i outcome) (sending m) s = after_sending-census outcome m s
    ending-census (backoff_ends i) (backing_off m n) s = after_backoff-census m n s
    ending-census (sending_ends i outcome) (backing_off m n) s = omega arith
    ending-census (backoff_ends i) (sending m) s = omega arith
    ending-census delivery (sending m) s = omega arith
    ending-census delivery (backing_off m n) s = omega arith

    ended-census : (event : Event) (s : Consuming) → census (ended event s) ≡ census s
    unfolding census summed
    ended-census event s = elim (Option-cases (take_task (place event) s.in_flight)) [
      | inl e ↦ rw (e, ended) refl
      | inr (found, e) ↦
          rw (e, ended)
            (omega (
              arith,
              ending-census event found.0 (record s { in_flight = found.1 }),
              summed-take_task (λ t. f (message_of t)) (place event) s.in_flight found e,
            ))
    ]

    delivered-census :
        (parse : Text → Option Value) (queue : List Message) (s : Consuming)
        → s.queue ≡ queue
        → census (delivered parse queue s) ≡ census s
    unfolding census summed
    delivered-census parse [] s h = refl
    delivered-census parse (m ∷ queue) s h = elim (Bool-cases (ltb (length s.in_flight) prefetch)) [
      | inr full ↦ rw full refl
      | inl room ↦ rw room (
          let before : summed f s.queue ≡ f m + summed f queue = ap (summed f) h in
          omega (arith, before, arrive-census parse m (record s { queue = queue })))
    ]

    happen-census :
        (parse : Text → Option Value) (event : Event) (s : Consuming)
        → census (happen parse event s) ≡ census s
    unfolding happen
    happen-census parse delivery s = delivered-census parse s.queue s refl
    happen-census parse (sending_ends i outcome) s = ended-census (sending_ends i outcome) s
    happen-census parse (backoff_ends i) s = ended-census (backoff_ends i) s

    -- Whatever the order in which deliveries, sendings and backoffs end while messages are handled at
    -- the same time, none is lost and none doubled: counted by anything that a retry does not change,
    -- the messages that wait, are under way or are settled are as many as before.
    pub happen_all-census :
        (parse : Text → Option Value) (events : List Event) (s : Consuming)
        → census (happen_all parse events s) ≡ census s
    unfolding happen_all
    happen_all-census parse [] s = refl
    happen_all-census parse (event ∷ events) s =
        happen_all-census parse events (happen parse event s) ∙ happen-census parse event s
