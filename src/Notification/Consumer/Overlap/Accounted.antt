-- ===== src/Notification/Consumer/Overlap/Accounted.antt =====
-- What the consumer holds, and why it dropped a message, in whatever order the handlings run.
use nest_order_api.Common.{
  ◌+◌, ◌≤◌, ◌≡◌, refl, Bool, true, false, ◌||◌, List, [], ◌∷◌, length, ltb, or_else, Text, text_eq,
  Option, none, some, inl, inr, arith, Bool-cases, Option-cases, All, All-weaken,
}
use nest_order_api.Notification.Consumer.{
  Message, SendOutcome, sent, refused, failed, max_retries, given_id, is_wanted, is_duplicate,
  remember, remembered_messages,
}
use nest_order_api.Notification.Consumer.Overlap.{
  prefetch, Task, sending, backing_off, Consuming, arrive, after_sending, take_task, await, Event,
  delivery, sending_ends, backoff_ends, place, ending, ended, delivered, happen, happen_all,
}
use nest_order_api.Notification.Consumer.Overlap.Tasks.{length-take_task}
use nest_order_api.Notification.RecentMessageIds.Origin.{has-add}
use nest_order_api.Notification.RecentMessageIds.{RecentMessageIds, has}
use nest_order_api.Values.{Value}

-- Some message of the list bears the id.
unfoldable pub bears : Text → List Message → Bool
bears id [] = false
bears id (m ∷ ms) =
    (elim (given_id m.message_id) [ none ↦ false | some x ↦ text_eq x id ]) || bears id ms

-- An e-mail for the id of the message was sent.
abbrev pub IsRepeated : List Message → Message → Type 0
IsRepeated mailed m = (id : Text) × (given_id m.message_id ≡ some id) × (bears id mailed ≡ true)

-- At most ten messages are under way; every id in the memory is that of an e-mail that was sent; and
-- every message that was dropped as a duplicate repeats the id of such an e-mail.
pub record Accounted (s : Consuming) : Type 0 where
  pub few : length s.in_flight ≤ prefetch
  pub remembered : (id : Text) → has id s.sent_message_ids ≡ true → bears id s.mailed ≡ true
  pub repeated : All (IsRepeated s.mailed) s.duplicates

or_true : (b : Bool) → (b || true) ≡ true
or_true b = ground arith

bears-cons :
    (id : Text) (m : Message) (ms : List Message) → bears id ms ≡ true → bears id (m ∷ ms) ≡ true
unfolding bears
bears-cons id m ms h = rw h (or_true _)

remember-bears :
    (m : Message) (ids : RecentMessageIds) (ms : List Message)
    → ((id : Text) → has id ids ≡ true → bears id ms ≡ true)
    → (id : Text) → has id (remember m ids) ≡ true
    → bears id (m ∷ ms) ≡ true
unfolding remember bears
remember-bears m ids ms old id h = elim (Option-cases (given_id m.message_id)) [
  | inl e ↦ rw e (old id (rw (e, remember) at h))
  | inr (x, e) ↦ elim (has-add id x remembered_messages ids (rw (e, remember) at h)) [
    | inl g ↦ rw (e, old id g) (or_true _)
    | inr g ↦ rw (e, g) refl
  ]
]

duplicate_repeats :
    (m : Message) (s : Consuming)
    → ((id : Text) → has id s.sent_message_ids ≡ true → bears id s.mailed ≡ true)
    → is_duplicate m s.sent_message_ids ≡ true
    → IsRepeated s.mailed m
unfolding is_duplicate
duplicate_repeats m s old h = elim (Option-cases (given_id m.message_id)) [
  | inl e ↦ absurd (cc (rw (e, is_duplicate) at h))
  | inr (id, e) ↦ (id, e, old id (rw (e, is_duplicate) at h))
]

arrive-Accounted :
    (parse : Text → Option Value) (m : Message) (s : Consuming)
    → length s.in_flight + 1 ≤ prefetch
    → Accounted s
    → Accounted (arrive parse m s)
unfolding arrive
arrive-Accounted parse m s room a = elim (Bool-cases (is_wanted parse m)) [
  | inr e ↦
      rw (e, arrive) (record { few = a.few; remembered = a.remembered; repeated = a.repeated })
  | inl e ↦ elim (Bool-cases (is_duplicate m s.sent_message_ids)) [
    | inr f ↦
        rw (e, f, arrive)
          (record { few = omega arith; remembered = a.remembered; repeated = a.repeated })
    | inl f ↦
        rw (e, f, arrive)
          (record {
            few = a.few;
            remembered = a.remembered;
            repeated = (duplicate_repeats m s a.remembered f, a.repeated);
          })
  ]
]

after_sending-Accounted :
    (outcome : SendOutcome) (m : Message) (s : Consuming)
    → length s.in_flight + 1 ≤ prefetch
    → Accounted s
    → Accounted (after_sending outcome m s)
unfolding after_sending
after_sending-Accounted sent m s room a = record {
  few = a.few;
  remembered = remember-bears m s.sent_message_ids s.mailed a.remembered;
  repeated =
      All-weaken s.duplicates
        (λ d (id, given, mailed). (id, given, bears-cons id m s.mailed mailed)) a.repeated;
}
after_sending-Accounted refused m s room a = record {
  few = a.few;
  remembered = a.remembered;
  repeated = a.repeated;
}
after_sending-Accounted failed m s room a =
    elim (Bool-cases (ltb max_retries (or_else m.retry_count 0 + 1))) [
      | inl over ↦
          rw (over, after_sending)
            (record { few = a.few; remembered = a.remembered; repeated = a.repeated })
      | inr within ↦
          rw (within, after_sending)
            (record { few = omega arith; remembered = a.remembered; repeated = a.repeated })
    ]

awaited-Accounted :
    (t : Task) (s : Consuming)
    → length s.in_flight + 1 ≤ prefetch
    → Accounted s
    → Accounted (await t s)
awaited-Accounted t s room a = record {
  few = omega arith;
  remembered = a.remembered;
  repeated = a.repeated;
}

ending-Accounted :
    (event : Event) (t : Task) (s : Consuming)
    → length s.in_flight + 1 ≤ prefetch
    → Accounted s
    → Accounted (ending event t s)
ending-Accounted (sending_ends i outcome) (sending m) s room a =
    after_sending-Accounted outcome m s room a
ending-Accounted (backoff_ends i) (backing_off m n) s room a = record {
  few = a.few;
  remembered = a.remembered;
  repeated = a.repeated;
}
ending-Accounted (sending_ends i outcome) (backing_off m n) s room a = awaited-Accounted _ s room a
ending-Accounted (backoff_ends i) (sending m) s room a = awaited-Accounted _ s room a
ending-Accounted delivery (sending m) s room a = awaited-Accounted _ s room a
ending-Accounted delivery (backing_off m n) s room a = awaited-Accounted _ s room a

ended-Accounted : (event : Event) (s : Consuming) → Accounted s → Accounted (ended event s)
ended-Accounted event s a = elim (Option-cases (take_task (place event) s.in_flight)) [
  | inl e ↦ rw (e, ended) a
  | inr (found, e) ↦
      let size = length-take_task (place event) s.in_flight found e in
      rw (e, ended)
        (ending-Accounted event found.0 (record s { in_flight = found.1 })
          (omega (arith, size, a.few))
          (record {
            few = omega (arith, size, a.few);
            remembered = a.remembered;
            repeated = a.repeated;
          }))
]

delivered-Accounted :
    (parse : Text → Option Value) (queue : List Message) (s : Consuming)
    → Accounted s
    → Accounted (delivered parse queue s)
delivered-Accounted parse [] s a = a
delivered-Accounted parse (m ∷ queue) s a = elim (Bool-cases (ltb (length s.in_flight) prefetch)) [
  | inr full ↦ rw full a
  | inl room ↦ rw room (
      arrive-Accounted parse m (record s { queue = queue }) (ground (arith, room))
        (record { few = a.few; remembered = a.remembered; repeated = a.repeated }))
]

happen-Accounted :
    (parse : Text → Option Value) (event : Event) (s : Consuming)
    → Accounted s
    → Accounted (happen parse event s)
unfolding happen
happen-Accounted parse delivery s a = delivered-Accounted parse s.queue s a
happen-Accounted parse (sending_ends i outcome) s a = ended-Accounted (sending_ends i outcome) s a
happen-Accounted parse (backoff_ends i) s a = ended-Accounted (backoff_ends i) s a

-- Whatever the order in which deliveries, sendings and backoffs end while messages are handled at the
-- same time, at most ten are under way, every id in the memory is that of an e-mail that was sent, and
-- every message that was dropped as a duplicate repeats the id of such an e-mail, if that was so
-- before.
pub happen_all-Accounted :
    (parse : Text → Option Value) (events : List Event) (s : Consuming)
    → Accounted s
    → Accounted (happen_all parse events s)
unfolding happen_all
happen_all-Accounted parse [] s a = a
happen_all-Accounted parse (event ∷ events) s a =
    happen_all-Accounted parse events (happen parse event s) (happen-Accounted parse event s a)
