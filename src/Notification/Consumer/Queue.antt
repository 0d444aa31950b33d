-- ===== src/Notification/Consumer/Queue.antt =====
-- The queue that the consumer works off, while its channel is open.
use nest_order_api.Common.{
  Bool, ℕ, zero, suc, ◌+◌, ◌-◌, ◌≤◌, ◌<◌, Text, ◌≡◌, ◌⊎◌, refl, ap, List, [], ◌∷◌, ◌++◌, Option,
  or_else, length, length-append, arith, inl, inr,
}
use nest_order_api.Notification.Consumer.{
  Message, SendOutcome, ack, nack, stale, send_to_queue, delivering, Circumstances, Handling,
  max_retries, retried, handle_message, is_wanted,
}
use nest_order_api.Notification.Consumer.Handled.{
  IsInterrupted, Settles, held, held_beside_copy, after_mail, duplicate, dead, again,
  handle_message-Settles,
}
use nest_order_api.Notification.RecentMessageIds.{RecentMessageIds}
use nest_order_api.Values.{Value}

-- The two queues of the broker and the memory of the consumer. `done` counts the messages that were
-- acknowledged with no copy in their place.
pub record Broker : Type 0 where
  pub ready : List Message
  pub dead_letters : List Message
  pub done : ℕ
  pub sent_message_ids : RecentMessageIds

-- What the broker makes of the replies to a message; without any it delivers the message again, last.
abbrev settled : Broker → Message → List Message → Handling → Broker
settled b message rest h = elim h.replies [
  | [] ↦ record b { ready = rest ++ message ∷ []; sent_message_ids = h.sent_message_ids }
  | stale ∷ _ ↦ record b { ready = rest ++ message ∷ []; sent_message_ids = h.sent_message_ids }
  | ack ∷ _ ↦ record b { ready = rest; done = suc b.done; sent_message_ids = h.sent_message_ids }
  | nack ∷ _ ↦ record b {
    ready = rest;
    dead_letters = b.dead_letters ++ message ∷ [];
    sent_message_ids = h.sent_message_ids;
  }
  | send_to_queue copy ∷ _ ↦ record b {
    ready = rest ++ copy ∷ [];
    sent_message_ids = h.sent_message_ids;
  }
]

-- The deliveries that a message can still have.
abbrev pub deliveries_left : Message → ℕ
deliveries_left message = suc (max_retries - or_else message.retry_count 0)

abbrev pub work : List Message → ℕ
work [] = 0
work (m ∷ ms) = deliveries_left m + work ms

abbrev pub total : Broker → ℕ
total b = length b.ready + length b.dead_letters + b.done

work-append : (xs ys : List Message) → work (xs ++ ys) ≡ work xs + work ys
work-append [] ys = omega arith
work-append (x ∷ xs) ys = omega (arith, work-append xs ys)

-- Handled with a channel, a message leaves less work, and none is lost.
record Progress (before : ℕ) (count : ℕ) (b : Broker) : Type 0 where
  less : work b.ready < before
  same : total b ≡ count

step-Progress :
    (wanted : Bool) (now : Circumstances) (b : Broker) (message : Message) (rest : List Message)
    (h : Handling)
    → ¬ (IsInterrupted now)
    → Settles wanted now message b.sent_message_ids h
    → Progress
        (work (message ∷ rest))
        (suc (length rest) + length b.dead_letters + b.done)
        (settled b message rest h)
step-Progress wanted now b message rest _ o (held h e shut) = absurd (o shut)
step-Progress wanted now b message rest _ o (held_beside_copy h n e shut _ _) = absurd (o shut)
step-Progress wanted now b message rest _ o (after_mail h e _) =
    rw e (record { less = omega arith; same = omega arith })
step-Progress wanted now b message rest _ o (duplicate h e _ _) =
    rw e (record { less = omega arith; same = omega arith })
step-Progress wanted now b message rest _ o (dead h e _ _) = rw e (record {
  less = omega arith;
  same = omega (arith, length-append b.dead_letters (message ∷ []));
})
step-Progress wanted now b message rest _ o (again h n e next few) = rw e (record {
  less = omega (arith, work-append rest (retried message n ∷ []), next, few);
  same = omega (arith, length-append rest (retried message n ∷ []));
})

abbrev pub with_channel : SendOutcome → Circumstances
with_channel o = record {
  outcome = o;
  at_arrival = delivering;
  after_sending = delivering;
  after_wait = delivering;
}

uninterrupted : (o : SendOutcome) → ¬ (IsInterrupted (with_channel o))
uninterrupted o (inl n) = n refl
uninterrupted o (inr (inl n)) = n refl
uninterrupted o (inr (inr n)) = n refl

module _ (parse : Text → Option Value) (outcomes : ℕ → SendOutcome) where
  -- Up to `n` deliveries, with the outcomes of the sending that the world gives.
  unfoldable pub run : ℕ → Broker → Broker
  run zero b = b
  run (suc n) b = elim b.ready [
    | [] ↦ b
    | message ∷ rest ↦ run n (
        settled b message rest
          (handle_message parse (with_channel (outcomes n)) message b.sent_message_ids))
  ]

  ready-cases :
      (ms : List Message) → (ms ≡ []) ⊎ ((m : Message) × (rest : List Message) × (ms ≡ m ∷ rest))
  ready-cases [] = inl refl
  ready-cases (m ∷ rest) = inr (m, rest, refl)

  -- However the sending ends each time, after as many deliveries as the messages can still have, at
  -- most four each, the queue is empty, and every message was acknowledged or lies in the dead-letter
  -- queue.
  pub run_drains :
      (n : ℕ) (b : Broker)
      → work b.ready ≤ n
      → ((run n b).ready ≡ []) × (length (run n b).dead_letters + (run n b).done ≡ total b)
  unfolding run
  run_drains zero b h = elim (ready-cases b.ready) [
    | inl e ↦ (e, omega (arith, ap length e))
    | inr (m, rest, e) ↦ absurd (omega (arith, ap work e, h))
  ]
  run_drains (suc n) b h = elim (ready-cases b.ready) [
    | inl e ↦ rw (e, run) (e, omega (arith, ap length e))
    | inr (m, rest, e) ↦
        let now = with_channel (outcomes n) in
        let handled = handle_message parse now m b.sent_message_ids in
        let next =
          step-Progress (is_wanted parse m) now b m rest handled (uninterrupted (outcomes n))
            (handle_message-Settles parse now m b.sent_message_ids) in
        let (empty, kept) =
          run_drains n (settled b m rest handled) (omega (arith, next.less, ap work e, h)) in
        rw (e, run) (empty, omega (arith, kept, next.same, ap length e))
  ]
