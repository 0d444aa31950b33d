-- ===== src/Order/Status.antt =====
-- order-status.enum.ts: the statuses and the allowed transitions.
pub mod Reach
use nest_order_api.Common.{Text, lit, Bool, true, false, List, [], ◌∷◌, any}

pub data OrderStatus : Type 0 where
  opened confirmed canceled : OrderStatus

-- The value of the enum's member.
abbrev pub status_text : OrderStatus → Text
status_text opened = lit "OPEN"
status_text confirmed = lit "CONFIRMED"
status_text canceled = lit "CANCELED"

abbrev pub same_status : OrderStatus → OrderStatus → Bool
same_status opened opened = true
same_status confirmed confirmed = true
same_status canceled canceled = true
same_status _ _ = false

abbrev pub allowed_transitions : OrderStatus → List OrderStatus
allowed_transitions opened = confirmed ∷ canceled ∷ []
allowed_transitions confirmed = canceled ∷ []
allowed_transitions canceled = []

unfoldable pub can_transition : OrderStatus → OrderStatus → Bool
can_transition from to = any (λ s. same_status s to) (allowed_transitions from)
