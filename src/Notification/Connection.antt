-- ===== src/Notification/Connection.antt =====
-- amqp-connection-manager.ts, and `connectWithRetry` of rabbitmq.consumer.ts.
use nest_order_api.Common.{
  ℕ, zero, suc, ◌+◌, ◌<◌, ◌≡◌, refl, sym, subst, ap, ◌∙◌, Bool, true, false, not, ◌&&◌, arith,
  Bool-cases, inl, inr, if◌then◌else◌,
}

-- Whether the manager holds a connection and a channel, whether the broker has not closed that
-- channel, and whether `close` was called.
pub record Manager : Type 0 where
  pub has_connection : Bool
  pub has_channel : Bool
  pub is_open : Bool
  pub destroyed : Bool

-- Which calls of an attempt the broker accepts: to connect, to create the channel, to declare both
-- queues, and to set the prefetch and consume. With a call on a channel that it refuses, the broker
-- closes the channel, not the connection, and every later call on that channel throws.
pub record Round : Type 0 where
  pub connects : Bool
  pub creates : Bool
  pub declares : Bool
  pub consumes : Bool

-- `getChannel` without a channel: whether it returns, and the manager then. What was assigned before a
-- call failed stays.
abbrev pub open_channel : Round → Manager → Bool × Manager
open_channel a m =
    if not a.connects
    then (false, m)
    else if not a.creates
    then (false, record m { has_connection = true })
    else (a.declares, record m { has_connection = true; has_channel = true; is_open = a.declares })

-- `getChannel`
unfoldable pub get_channel : Round → Manager → Bool × Manager
get_channel a m = if m.has_channel then (true, m) else open_channel a m

-- The handler of `close`: whether the owner is told, and the manager then.
unfoldable pub on_connection_close : Manager → Bool × Manager
on_connection_close m =
    (not m.destroyed, record m { has_connection = false; has_channel = false; is_open = false })

-- `close`
unfoldable pub close : Manager → Manager
close m = record m { destroyed = true }

-- A refused `prefetch` or `consume` leaves the stored channel closed.
abbrev pub after_consuming : Bool → Manager → Manager
after_consuming consumed m = record m { is_open = m.is_open && consumed }

-- What follows `getChannel` in the `try`: whether it subscribes, and the manager it leaves.
abbrev pub subscribe : Round → Bool × Manager → Bool × Manager
subscribe a (true, m) = (m.is_open && a.consumes, after_consuming a.consumes m)
subscribe a (false, m) = (false, m)

unfoldable pub try_once : Round → Manager → Bool × Manager
unfolding get_channel
try_once a m = subscribe a (get_channel a m)

-- `connectWithRetry`, for `fuel` rounds from attempt `i` on, between two closes of the connection:
-- whether it has subscribed. The consumer and its manager are destroyed together.
unfoldable pub connect_with_retry : (ℕ → Round) → ℕ → ℕ → Manager → Bool × Manager
unfolding try_once
connect_with_retry attempts zero i m = (false, m)
connect_with_retry attempts (suc fuel) i m =
    let (subscribed, left) = try_once (attempts i) m in
    let rest = connect_with_retry attempts fuel (i + 1) left in
    if m.destroyed then (false, m) else if subscribed then (true, left) else rest

-- All calls succeed.
abbrev pub good : Round
good = record { connects = true; creates = true; declares = true; consumes = true }

-- The attempt fails before there is a channel.
abbrev pub is_unreachable : Round → Bool
is_unreachable a = not (a.connects && a.creates)

if_true : {A : Type 0} (b : Bool) (x y : A) → b ≡ true → (if b then x else y) ≡ x
if_true b x y e = rw e refl

if_false : {A : Type 0} (b : Bool) (x y : A) → b ≡ false → (if b then x else y) ≡ y
if_false b x y e = rw e refl

-- What an attempt without a channel leaves.
record IsLeft (subscribed : Bool) (m : Manager) (r : Bool × Manager) : Type 0 where
  outcome : r.0 ≡ subscribed
  has_channel : r.1.has_channel ≡ m.has_channel
  destroyed : r.1.destroyed ≡ m.destroyed

opened_unreachable :
    (a : Round) (m : Manager)
    → is_unreachable a ≡ true
    → IsLeft false m (subscribe a (open_channel a m))
opened_unreachable a m u = elim (Bool-cases a.connects) [
  | inr f ↦ rw f (record { outcome = refl; has_channel = refl; destroyed = refl })
  | inl c ↦ elim (Bool-cases a.creates) [
    | inr f ↦ rw (c, f) (record { outcome = refl; has_channel = refl; destroyed = refl })
    | inl d ↦ absurd (cc (rw (c, d) at u))
  ]
]

try_once-open :
    (a : Round) (m : Manager)
    → m.has_channel ≡ false
    → try_once a m ≡ subscribe a (open_channel a m)
unfolding try_once get_channel
try_once-open a m n = ap (subscribe a) (if_false m.has_channel (true, m) (open_channel a m) n)

try_once-stored :
    (a : Round) (m : Manager) → m.has_channel ≡ true → try_once a m ≡ subscribe a (true, m)
unfolding try_once get_channel
try_once-stored a m h = ap (subscribe a) (if_true m.has_channel (true, m) (open_channel a m) h)

outcome_of : {r s : Bool × Manager} → r ≡ s → r.0 ≡ s.0
outcome_of e = ap (λ (r : Bool × Manager). r.0) e

-- The consumer that has no channel and is not destroyed is subscribed in the first round in which all
-- calls succeed, if in the rounds before it the broker was out of reach: it could not connect, or not
-- create a channel. The loop then ends.
pub connect_with_retry_ends :
    (attempts : ℕ → Round) (k i : ℕ) (m : Manager)
    → m.destroyed ≡ false
    → m.has_channel ≡ false
    → ((j : ℕ) → j < k → is_unreachable (attempts (i + j)) ≡ true)
    → attempts (i + k) ≡ good
    → (connect_with_retry attempts (suc k) i m).0 ≡ true
unfolding connect_with_retry
connect_with_retry_ends attempts zero i m alive none_yet away h =
    let here : i ≡ i + 0 = omega arith in
    let now : attempts i ≡ good = ap attempts here ∙ h in
    let done : (try_once (attempts i) m).0 ≡ true =
      subst (λ a. (try_once a m).0 ≡ true) (sym now) (outcome_of (try_once-open good m none_yet)) in
    outcome_of (
      if_false {A = Bool × Manager} m.destroyed _ _ alive
      ∙ if_true {A = Bool × Manager} (try_once (attempts i) m).0 _ _ done)
connect_with_retry_ends attempts (suc k) i m alive none_yet away h =
    let index : i + 1 + k ≡ i + suc k = omega arith in
    let here : i ≡ i + 0 = omega arith in
    let unreachable : is_unreachable (attempts i) ≡ true =
      ap (λ n. is_unreachable (attempts n)) here ∙ away 0 (omega arith) in
    let left =
      subst (IsLeft false m) (sym (try_once-open (attempts i) m none_yet))
        (opened_unreachable (attempts i) m unreachable) in
    outcome_of (
      if_false {A = Bool × Manager} m.destroyed _ _ alive
      ∙ if_false {A = Bool × Manager} (try_once (attempts i) m).0 _ _ left.outcome)
    ∙ connect_with_retry_ends attempts k (i + 1) (try_once (attempts i) m).1
        (left.destroyed ∙ alive) (left.has_channel ∙ none_yet)
        (λ j l.
          let next : i + 1 + j ≡ i + suc j = omega arith in
          ap (λ n. is_unreachable (attempts n)) next ∙ away (suc j) (omega (arith, l)))
        (ap attempts index ∙ h)

-- The consumer whose stored channel the broker has closed does not subscribe, whatever the later
-- attempts and however many, as long as the connection does not close: each attempt gets that
-- channel.
pub connect_with_retry_stuck :
    (attempts : ℕ → Round) (fuel i : ℕ) (m : Manager)
    → m.has_channel ≡ true
    → m.is_open ≡ false
    → (connect_with_retry attempts fuel i m).0 ≡ false
unfolding connect_with_retry
connect_with_retry_stuck attempts zero i m stored shut = refl
connect_with_retry_stuck attempts (suc fuel) i m stored shut = elim (Bool-cases m.destroyed) [
  | inl d ↦ outcome_of (if_true {A = Bool × Manager} m.destroyed _ _ d)
  | inr d ↦
      let same = try_once-stored (attempts i) m stored in
      let failed = outcome_of same ∙ ap (λ b. b && (attempts i).consumes) shut in
      outcome_of (
        if_false {A = Bool × Manager} m.destroyed _ _ d
        ∙ if_false {A = Bool × Manager} (try_once (attempts i) m).0 _ _ failed)
      ∙ connect_with_retry_stuck attempts fuel (i + 1) (try_once (attempts i) m).1
          (ap (λ (r : Bool × Manager). r.1.has_channel) same ∙ stored)
          (ap (λ (r : Bool × Manager). r.1.is_open) same
            ∙ ap (λ b. b && (attempts i).consumes) shut)
]
