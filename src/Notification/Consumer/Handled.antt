-- ===== src/Notification/Consumer/Handled.antt =====
-- What becomes of one delivery.
use nest_order_api.Common.{
  subst, ℕ, ◌+◌, ◌≤◌, ◌<◌, Text, ◌≡◌, ◌≢◌, ◌⊎◌, refl, ap, sym, ◌∙◌, Bool, true, false, [], ◌∷◌,
  Option, some, or_else, length, ltb, arith, Bool-cases, inl, inr,
}
use nest_order_api.Notification.Consumer.{
  Message, SendOutcome, sent, refused, failed, Reply, ack, nack, stale, send_to_queue, Channel,
  delivering, replaced, closed, misdirected, Circumstances, Handling, max_retries,
  remembered_messages, retried, given_id, is_duplicate, remember, retry_or_dead_letter,
  send_and_settle, is_wanted, handle_message, through,
}
use nest_order_api.Notification.RecentMessageIds.{RecentMessageIds, has, add, add_all}
use nest_order_api.Notification.RecentMessageIds.Memory.{add_remembers}
use nest_order_api.Values.{Value}

-- A channel is not the one that delivered the message, at one of the calls.
abbrev pub IsInterrupted : Circumstances → Type 0
IsInterrupted now =
    (now.at_arrival ≢ delivering)
    ⊎ ((now.after_sending ≢ delivering) ⊎ (now.after_wait ≢ delivering))

-- No further delivery would help: the message is no event, the recipient was refused, or the sending
-- failed and the retries are used up.
abbrev pub IsHopeless : Bool → Circumstances → Message → Type 0
IsHopeless wanted now message =
    (wanted ≡ false)
    ⊎ ((now.outcome ≡ refused)
        ⊎ ((now.outcome ≡ failed) × (max_retries < or_else message.retry_count 0 + 1)))

-- What a handled message has come to: after an interruption, nothing was said or nothing but a
-- stale settlement, so the broker still holds the delivery, perhaps beside a copy with one more
-- retry; it was acknowledged after the e-mail or as a duplicate; it is dead, without an e-mail and
-- for a reason; or a copy with one more retry is in the queue in its place, within the limit.
pub data Settles (wanted : Bool) (now : Circumstances) (message : Message) (ids : RecentMessageIds)
    : Handling → Type 0 where
  held :
      (h : Handling)
      → (h.replies ≡ []) ⊎ (h.replies ≡ stale ∷ [])
      → IsInterrupted now
      → Settles wanted now message ids h
  held_beside_copy :
      (h : Handling) (n : ℕ)
      → h.replies ≡ send_to_queue (retried message n) ∷ stale ∷ []
      → IsInterrupted now
      → n ≡ or_else message.retry_count 0 + 1
      → n ≤ max_retries
      → Settles wanted now message ids h
  after_mail :
      (h : Handling) → h.replies ≡ ack ∷ [] → h.mailed ≡ true → Settles wanted now message ids h
  duplicate :
      (h : Handling)
      → h.replies ≡ ack ∷ []
      → h.mailed ≡ false
      → is_duplicate message ids ≡ true
      → Settles wanted now message ids h
  dead :
      (h : Handling)
      → h.replies ≡ nack ∷ []
      → h.mailed ≡ false
      → IsHopeless wanted now message
      → Settles wanted now message ids h
  again :
      (h : Handling) (n : ℕ)
      → h.replies ≡ send_to_queue (retried message n) ∷ ack ∷ []
      → n ≡ or_else message.retry_count 0 + 1
      → n ≤ max_retries
      → Settles wanted now message ids h

Channel-cases :
    (c : Channel) → (c ≡ delivering) ⊎ ((c ≢ delivering) × ((c ≡ replaced) ⊎ (c ≡ closed)))
Channel-cases delivering = inl refl
Channel-cases replaced = inr (λ e. cc, inl refl)
Channel-cases closed = inr (λ e. cc, inr refl)

-- One settlement over a channel: it is told, or there was an interruption.
through-cases :
    (c : Channel) (r : Reply)
    → misdirected r ≡ stale
    → (through c (r ∷ []) ≡ r ∷ [])
      ⊎ ((c ≢ delivering) × ((through c (r ∷ []) ≡ []) ⊎ (through c (r ∷ []) ≡ stale ∷ [])))
through-cases delivering r m = inl refl
through-cases replaced r m = inr (λ e. cc, inr (ap (λ x. x ∷ []) m))
through-cases closed r m = inr (λ e. cc, inl refl)

-- What the retry says.
retry_settles :
    (wanted : Bool) (now : Circumstances) (message : Message) (ids : RecentMessageIds)
    (h : Handling)
    → ((h.mailed ≡ false) × (now.outcome ≡ failed)) ⊎ (now.after_sending ≡ closed)
    → h.replies ≡ retry_or_dead_letter now message
    → Settles wanted now message ids h
unfolding retry_or_dead_letter
retry_settles wanted now message ids h why e =
    elim (Bool-cases (ltb max_retries (or_else message.retry_count 0 + 1))) [
      | inl over ↦
          let told : h.replies ≡ through now.after_sending (nack ∷ []) =
            e ∙ rw (over, retry_or_dead_letter) refl in
          elim (through-cases now.after_sending nack refl) [
            | inr (changed, inl f) ↦ held h (inl (told ∙ f)) (inr (inl changed))
            | inr (changed, inr f) ↦ held h (inr (told ∙ f)) (inr (inl changed))
            | inl f ↦ elim why [
              | inl (unmailed, failing) ↦
                  dead h (told ∙ f) unmailed (inr (inr (failing, ground (arith, over))))
              | inr shut ↦ held h (inl (told ∙ rw shut refl)) (inr (inl (λ d. cc)))
            ]
          ]
      | inr within ↦
          let n = or_else message.retry_count 0 + 1 in
          let copy = send_to_queue (retried message n) in
          let told : h.replies ≡ through now.after_wait (copy ∷ ack ∷ []) =
            e ∙ rw (within, retry_or_dead_letter) refl in
          let few : n ≤ max_retries = ground (arith, within) in
          elim (Channel-cases now.after_wait) [
            | inl d ↦ again h n (told ∙ rw d refl) refl few
            | inr (changed, inl r) ↦
                held_beside_copy h n (told ∙ rw r refl) (inr (inr changed)) refl few
            | inr (changed, inr c) ↦ held h (inl (told ∙ rw c refl)) (inr (inr changed))
          ]
    ]

send_settles :
    (wanted : Bool) (now : Circumstances) (outcome : SendOutcome) (message : Message)
    (ids : RecentMessageIds)
    → now.outcome ≡ outcome
    → Settles wanted now message ids (send_and_settle now message ids)
unfolding send_and_settle
send_settles wanted now sent message ids e = elim (Channel-cases now.after_sending) [
  | inl o ↦ after_mail _ (rw (e, o, send_and_settle) refl) (rw (e, send_and_settle) refl)
  | inr (changed, inl r) ↦ held _ (inr (rw (e, r, send_and_settle) refl)) (inr (inl changed))
  | inr (changed, inr c) ↦
      retry_settles wanted now message ids _ (inr c) (rw (e, c, send_and_settle) refl)
]
send_settles wanted now refused message ids e = elim (through-cases now.after_sending nack refl) [
  | inl f ↦ dead _ (rw (e, send_and_settle) f) (rw (e, send_and_settle) refl) (inr (inl e))
  | inr (changed, inl f) ↦ held _ (inl (rw (e, send_and_settle) f)) (inr (inl changed))
  | inr (changed, inr f) ↦ held _ (inr (rw (e, send_and_settle) f)) (inr (inl changed))
]
send_settles wanted now failed message ids e =
    retry_settles wanted now message ids _ (inl (rw (e, send_and_settle) refl, e))
      (rw (e, send_and_settle) refl)

-- A message is acknowledged over the channel that delivered it only after its e-mail was sent, as a
-- duplicate, or after a copy with one more retry, at most the limit, went to the queue; otherwise it
-- is dead, without an e-mail and because it is no event, its recipient is refused or its retries are
-- used up; or, only where that channel was lost on the way, it is not settled: the broker still holds
-- the delivery, perhaps beside such a copy, and was told nothing or its tag over another channel.
pub handle_message-Settles :
    (parse : Text → Option Value) (now : Circumstances) (message : Message) (ids : RecentMessageIds)
    → Settles (is_wanted parse message) now message ids (handle_message parse now message ids)
unfolding handle_message
handle_message-Settles parse now message ids = elim (Bool-cases (is_wanted parse message)) [
  | inr unwanted ↦ elim (through-cases now.at_arrival nack refl) [
    | inl f ↦
        dead _ (rw (unwanted, handle_message) f) (rw (unwanted, handle_message) refl) (inl unwanted)
    | inr (changed, inl f) ↦ held _ (inl (rw (unwanted, handle_message) f)) (inl changed)
    | inr (changed, inr f) ↦ held _ (inr (rw (unwanted, handle_message) f)) (inl changed)
  ]
  | inl wanted ↦ elim (Bool-cases (is_duplicate message ids)) [
    | inl seen ↦ elim (through-cases now.at_arrival ack refl) [
      | inl f ↦
          duplicate _ (rw (wanted, seen, handle_message) f) (rw (wanted, seen, handle_message) refl)
            seen
      | inr (changed, inl f) ↦ held _ (inl (rw (wanted, seen, handle_message) f)) (inl changed)
      | inr (changed, inr f) ↦ held _ (inr (rw (wanted, seen, handle_message) f)) (inl changed)
    ]
    | inr new ↦
        subst (Settles (is_wanted parse message) now message ids)
          (rw (wanted, new, handle_message) refl)
          (send_settles (is_wanted parse message) now now.outcome message ids refl)
  ]
]

send_remembers :
    (now : Circumstances) (outcome : SendOutcome) (message : Message) (id : Text)
    (ids : RecentMessageIds)
    → now.outcome ≡ outcome
    → given_id message.message_id ≡ some id
    → (send_and_settle now message ids).mailed ≡ true
    → (send_and_settle now message ids).sent_message_ids ≡ add remembered_messages id ids
unfolding send_and_settle remember
send_remembers now sent message id ids e m h = rw (e, m, send_and_settle, remember) refl
send_remembers now refused message id ids e m h = absurd (cc (rw (e, send_and_settle) at h))
send_remembers now failed message id ids e m h = absurd (cc (rw (e, send_and_settle) at h))

mail_remembers :
    (parse : Text → Option Value) (now : Circumstances) (message : Message) (id : Text)
    (ids : RecentMessageIds)
    → given_id message.message_id ≡ some id
    → (handle_message parse now message ids).mailed ≡ true
    → (handle_message parse now message ids).sent_message_ids ≡ add remembered_messages id ids
unfolding handle_message
mail_remembers parse now message id ids m h = elim (Bool-cases (is_wanted parse message)) [
  | inr unwanted ↦ absurd (cc (rw (unwanted, handle_message) at h))
  | inl wanted ↦ elim (Bool-cases (is_duplicate message ids)) [
    | inl seen ↦ absurd (cc (rw (wanted, seen, handle_message) at h))
    | inr new ↦
        rw (wanted, new, handle_message)
          (send_remembers now now.outcome message id ids refl m
            (rw (wanted, new, handle_message) at h))
  ]
]

duplicate_unsent :
    (parse : Text → Option Value) (now : Circumstances) (message : Message) (ids : RecentMessageIds)
    → is_duplicate message ids ≡ true
    → (handle_message parse now message ids).mailed ≡ false
unfolding handle_message
duplicate_unsent parse now message ids seen = elim (Bool-cases (is_wanted parse message)) [
  | inr unwanted ↦ rw (unwanted, handle_message) refl
  | inl wanted ↦ rw (wanted, seen, handle_message) refl
]

-- Once the handling of a message with an id has sent its e-mail, no later handling of a message with
-- that id sends one, whatever the circumstances, as long as fewer further ids were remembered since
-- than the memory holds.
pub handle_message_once :
    (parse : Text → Option Value) (now later : Circumstances) (message copy : Message) (id : Text)
    (ids others : RecentMessageIds)
    → given_id message.message_id ≡ some id
    → given_id copy.message_id ≡ some id
    → (handle_message parse now message ids).mailed ≡ true
    → length others < remembered_messages
    → (handle_message parse later copy (
        add_all remembered_messages others
          (handle_message parse now message ids).sent_message_ids)).mailed
      ≡ false
unfolding is_duplicate
handle_message_once parse now later message copy id ids others m c mailed few =
    let held_ids = mail_remembers parse now message id ids m mailed in
    let kept = (add_remembers remembered_messages id others ids few).0 in
    duplicate_unsent parse later copy _ (
      rw (c, is_duplicate)
        (subst (λ r. has id (add_all remembered_messages others r) ≡ true) (sym held_ids) kept))
