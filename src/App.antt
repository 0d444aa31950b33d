-- ===== src/App.antt =====
-- The application as its order and customer routes: a history is a list of requests, each with its
-- authenticated user and its time, handled one after the other.
pub mod Invariant
pub mod Roles
pub mod Pipeline
use nest_order_api.Common.{ℕ, Text, Bool, List, [], ◌∷◌}
use nest_order_api.Auth.{RequestUser}
use nest_order_api.Money.{Decimal}
use nest_order_api.Customer.Controller as CustomerController
use nest_order_api.Order.Controller as OrderController
use nest_order_api.Order.Controller.{Reflector}
use nest_order_api.Order.Event.{World}
use nest_order_api.Orm.{Orm}

pub data Request : Type 0 where
  to_orders : RequestUser → ℕ → OrderController.Command → Request
  to_customers : RequestUser → ℕ → CustomerController.Command → Request

module _ (dec : Decimal) (orm : Orm) (reflector : Reflector) (is_uuid is_email : Text → Bool) where
  -- The state after one request, whether it returned or threw.
  unfoldable pub step : Request → World orm.Db → World orm.Db
  step (to_orders user now cmd) w =
      (OrderController.handle dec orm reflector is_uuid user now cmd w).1
  step (to_customers user now cmd) w =
      (CustomerController.handle orm reflector is_uuid is_email user now cmd w).1

  unfoldable pub run : List Request → World orm.Db → World orm.Db
  run [] w = w
  run (r ∷ rs) w = run rs (step r w)
