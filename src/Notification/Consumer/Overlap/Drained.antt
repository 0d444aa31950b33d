-- ===== src/Notification/Consumer/Overlap/Drained.antt =====
-- The consumer comes to an end, in whatever order the handlings run and however the sendings end.
use nest_order_api.Common.{
  ℕ, zero, suc, ◌+◌, ◌-◌, ◌*◌, ◌≤◌, ◌<◌, ◌≡◌, refl, ap, Bool, true, false, ◌&&◌, List, [], ◌∷◌,
  length, if◌then◌else◌, ltb, Text, Option, none, some, or_else, inl, inr, arith, Bool-cases,
  Option-cases,
}
use nest_order_api.Notification.Consumer.{
  Message, SendOutcome, sent, refused, failed, max_retries, retried,
}
use nest_order_api.Notification.Consumer.Overlap.{
  prefetch, Task, sending, backing_off, Consuming, arrive, after_sending, after_backoff, take_task,
  Event, delivery, sending_ends, backoff_ends, place, ending, ended, delivered, happen,
}
use nest_order_api.Notification.Consumer.Overlap.Tasks.{summed, summed-append, summed-take_task}
use nest_order_api.Values.{Value}

-- What may still happen to a message: three events for each delivery that it can have.
abbrev pub chances : ℕ → ℕ
chances retry_count = 3 * (suc max_retries - retry_count)

abbrev pub waiting : Message → ℕ
waiting m = chances (or_else m.retry_count 0) + 2

abbrev pub unsettled : Task → ℕ
unsettled (sending m) = chances (or_else m.retry_count 0) + 1
unsettled (backing_off m n) = chances n + 3

unfoldable pub load : Consuming → ℕ
unfolding summed
load s = summed waiting s.queue + summed unsettled s.in_flight

-- An event that can happen: there is a message and room for it, or a task that ends in this way.
abbrev pub fits : Event → Task → Bool
fits (sending_ends i outcome) (sending m) = true
fits (backoff_ends i) (backing_off m n) = true
fits _ _ = false

abbrev pub has_task : Event → Consuming → Bool
has_task event s = elim (take_task (place event) s.in_flight) [
  | none ↦ false
  | some found ↦ fits event found.0
]

abbrev pub can_deliver : List Message → Consuming → Bool
can_deliver [] s = false
can_deliver (m ∷ queue) s = ltb (length s.in_flight) prefetch

abbrev pub can_happen : Event → Consuming → Bool
can_happen delivery s = can_deliver s.queue s
can_happen (sending_ends i outcome) s = has_task (sending_ends i outcome) s
can_happen (backoff_ends i) s = has_task (backoff_ends i) s

-- Nothing waits and nothing is under way.
unfoldable pub is_drained : Consuming → Bool
is_drained s =
    (elim s.queue [ [] ↦ true | _ ∷ _ ↦ false ]) && (elim s.in_flight [ [] ↦ true | _ ∷ _ ↦ false ])

arrive-load :
    (parse : Text → Option Value) (m : Message) (s : Consuming)
    → load (arrive parse m s) < waiting m + load s
unfolding arrive load summed
arrive-load parse m s = ground arith

after_sending-load :
    (outcome : SendOutcome) (m : Message) (s : Consuming)
    → load (after_sending outcome m s) < unsettled (sending m) + load s
unfolding after_sending load summed
after_sending-load sent m s = omega arith
after_sending-load refused m s = omega arith
after_sending-load failed m s = ground arith

after_backoff-load :
    (m : Message) (n : ℕ) (s : Consuming)
    → load (after_backoff m n s) < unsettled (backing_off m n) + load s
unfolding load summed
after_backoff-load m n s = omega (arith, summed-append waiting s.queue (retried m n ∷ []))

ending-load :
    (event : Event) (t : Task) (s : Consuming)
    → fits event t ≡ true
    → load (ending event t s) < unsettled t + load s
ending-load (sending_ends i outcome) (sending m) s h = after_sending-load outcome m s
ending-load (backoff_ends i) (backing_off m n) s h = after_backoff-load m n s
ending-load (sending_ends i outcome) (backing_off m n) s h = cc
ending-load (backoff_ends i) (sending m) s h = cc
ending-load delivery (sending m) s h = cc
ending-load delivery (backing_off m n) s h = cc

ended-load :
    (event : Event) (s : Consuming) → has_task event s ≡ true → load (ended event s) < load s
unfolding load summed
ended-load event s h = elim (Option-cases (take_task (place event) s.in_flight)) [
  | inl e ↦ absurd (cc (rw (e, has_task) at h))
  | inr (found, e) ↦
      let before = summed-take_task unsettled (place event) s.in_flight found e in
      rw (e, ended)
        (omega (
          arith,
          before,
          ending-load event found.0 (record s { in_flight = found.1 }) (rw (e, has_task) at h),
        ))
]

delivered-load :
    (parse : Text → Option Value) (queue : List Message) (s : Consuming)
    → s.queue ≡ queue
    → can_deliver queue s ≡ true
    → load (delivered parse queue s) < load s
unfolding load summed
delivered-load parse [] s same h = cc
delivered-load parse (m ∷ queue) s same h =
    let before : summed waiting s.queue ≡ waiting m + summed waiting queue =
      ap (summed waiting) same in
    rw h (omega (arith, before, arrive-load parse m (record s { queue = queue })))

happen-load :
    (parse : Text → Option Value) (event : Event) (s : Consuming)
    → can_happen event s ≡ true
    → load (happen parse event s) < load s
unfolding happen
happen-load parse delivery s h = delivered-load parse s.queue s refl h
happen-load parse (sending_ends i outcome) s h = ended-load (sending_ends i outcome) s h
happen-load parse (backoff_ends i) s h = ended-load (backoff_ends i) s h

module _ (parse : Text → Option Value) (schedule : Consuming → Event) where
  -- `n` events as the schedule has them, which stops when nothing is left to do.
  unfoldable pub proceed : ℕ → Consuming → Consuming
  proceed zero s = s
  proceed (suc n) s =
      let rest = proceed n (happen parse (schedule s) s) in if is_drained s then s else rest

  drains_within :
      ((s : Consuming) → is_drained s ≡ false → can_happen (schedule s) s ≡ true)
      → (n : ℕ) (s : Consuming) → load s ≤ n
      → is_drained (proceed n s) ≡ true
  unfolding proceed
  drains_within busy zero s h = elim (Bool-cases (is_drained s)) [
    | inl e ↦ e
    | inr e ↦ absurd (omega (arith, happen-load parse (schedule s) s (busy s e)))
  ]
  drains_within busy (suc n) s h = elim (Bool-cases (is_drained s)) [
    | inl e ↦ rw e e
    | inr e ↦ rw e (
        drains_within busy n (happen parse (schedule s) s)
          (omega (arith, happen-load parse (schedule s) s (busy s e))))
  ]

  -- Whatever event comes next each time, as long as it can happen, and however the sendings end, the
  -- queue and the handlings that are under way come to an end, within `load` events, which is 14 for
  -- each message that waits untried.
  pub proceed_drains :
      ((s : Consuming) → is_drained s ≡ false → can_happen (schedule s) s ≡ true)
      → (s : Consuming) → is_drained (proceed (load s) s) ≡ true
  proceed_drains busy s = drains_within busy (load s) s (omega arith)
