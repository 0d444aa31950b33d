-- ===== src/Order/Status/Reach.antt =====
-- Which statuses an order can come to.
use nest_order_api.Common.{ℕ, ◌<◌, ◌≤◌, ◌≡◌, refl, ◌↔◌, true, arith}
use nest_order_api.Order.Status.{OrderStatus, opened, confirmed, canceled, can_transition}

-- The diagram of the domain's documentation.
pub data Step : OrderStatus → OrderStatus → Type 0 where
  confirm : Step opened confirmed
  cancel_open : Step opened canceled
  cancel_confirmed : Step confirmed canceled

-- Any number of steps.
pub data Reach (s : OrderStatus) : OrderStatus → Type 0 where
  here : Reach s s
  next : {t u : OrderStatus} → Reach s t → Step t u → Reach s u

can_transition_sound : (s t : OrderStatus) → can_transition s t ≡ true → Step s t
unfolding can_transition
can_transition_sound opened opened h = cc
can_transition_sound opened confirmed h = confirm
can_transition_sound opened canceled h = cancel_open
can_transition_sound confirmed opened h = cc
can_transition_sound confirmed confirmed h = cc
can_transition_sound confirmed canceled h = cancel_confirmed
can_transition_sound canceled opened h = cc
can_transition_sound canceled confirmed h = cc
can_transition_sound canceled canceled h = cc

can_transition_complete : {s t : OrderStatus} → Step s t → can_transition s t ≡ true
unfolding can_transition
can_transition_complete confirm = refl
can_transition_complete cancel_open = refl
can_transition_complete cancel_confirmed = refl

-- The table of allowed transitions holds exactly the steps of the documented diagram.
pub can_transition_iff : (s t : OrderStatus) → (can_transition s t ≡ true) ↔ Step s t
can_transition_iff s t = (can_transition_sound s t, can_transition_complete)

abbrev pub rank : OrderStatus → ℕ
rank opened = 0
rank confirmed = 1
rank canceled = 2

rank-step : {s t : OrderStatus} → Step s t → rank s < rank t
rank-step confirm = omega arith
rank-step cancel_open = omega arith
rank-step cancel_confirmed = omega arith

pub rank-Reach : {s t : OrderStatus} → Reach s t → rank s ≤ rank t
rank-Reach here = omega arith
rank-Reach (next r st) = omega (arith, rank-Reach r, rank-step st)

pub Reach-trans : {s t u : OrderStatus} → Reach s t → Reach t u → Reach s u
Reach-trans r here = r
Reach-trans r (next q st) = next (Reach-trans r q) st

-- Nothing leads out of `CANCELED`.
pub canceled_terminal : (t : OrderStatus) → Reach canceled t → t ≡ canceled
canceled_terminal opened r = absurd (omega (arith, rank-Reach r))
canceled_terminal confirmed r = absurd (omega (arith, rank-Reach r))
canceled_terminal canceled r = refl
