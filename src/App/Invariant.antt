-- ===== src/App/Invariant.antt =====
-- What holds of the database after any history of requests.
use nest_order_api.Common.{Text, ◌≡◌, Bool, List, [], ◌∷◌, some}
use nest_order_api.Audit.{intercept}
use nest_order_api.App.{Request, to_orders, to_customers, step, run}
use nest_order_api.Customer.Controller as CustomerController
use nest_order_api.Order.Controller as OrderController
use nest_order_api.Customer.Controller.Invariant.{handle-CustomerEffect}
use nest_order_api.Customer.Service.{UniqueField, tax_id, passport_number}
use nest_order_api.Customer.Service.References.{
  CustomerEffect-IsConsistent, CustomerEffect-RefersActive, CustomerEffect-Became,
}
use nest_order_api.Customer.Service.Unique.{UniqueIn, CustomerEffect-UniqueIn, Effect-UniqueIn}
use nest_order_api.Money.{Decimal}
use nest_order_api.Order.Controller.{Reflector}
use nest_order_api.Order.Controller.Invariant.{handle-Effect}
use nest_order_api.Order.Entity.{Order}
use nest_order_api.Order.Entity.Total.{IsConsistent}
use nest_order_api.Order.Event.{World}
use nest_order_api.Order.Service.Consistent.{
  Every, RefersActive, Effect-IsConsistent, Effect-RefersActive,
}
use nest_order_api.Order.Service.History.{Became, Evolves-refl, Evolves-trans, Effect-Became}
use nest_order_api.Orm.{Orm}
use nest_order_api.Orm.Laws.{OrmLaws}

module _ (dec : Decimal) (orm : Orm) (laws : OrmLaws orm) (reflector : Reflector)
    (is_uuid is_email : Text → Bool) where
  -- After any history every stored order has printed prices and quantities within their limits, at
  -- most 200 items, the exact sum of its items as its total, and at least one item while it is
  -- confirmed, if that was so before.
  pub run-IsConsistent :
      (history : List Request) (w : World orm.Db)
      → Every orm (λ o. IsConsistent o.details) w.db
      → Every orm
          (λ o. IsConsistent o.details)
          (run dec orm reflector is_uuid is_email history w).db
  unfolding run step
  run-IsConsistent [] w h = h
  run-IsConsistent (to_orders user now cmd ∷ rs) w h = run-IsConsistent rs _ (
      Effect-IsConsistent dec orm (intercept (some user))
        (handle-Effect dec orm laws reflector is_uuid user now cmd w) h)
  run-IsConsistent (to_customers user now cmd ∷ rs) w h = run-IsConsistent rs _ (
      CustomerEffect-IsConsistent orm
        (handle-CustomerEffect orm laws reflector is_uuid is_email user now cmd w) h)

  -- After any history no order that is not deleted belongs to a deleted customer, if that was so
  -- before.
  pub run-RefersActive :
      (history : List Request) (w : World orm.Db)
      → Every orm RefersActive w.db
      → Every orm RefersActive (run dec orm reflector is_uuid is_email history w).db
  unfolding run step
  run-RefersActive [] w h = h
  run-RefersActive (to_orders user now cmd ∷ rs) w h = run-RefersActive rs _ (
      Effect-RefersActive dec orm (intercept (some user))
        (handle-Effect dec orm laws reflector is_uuid user now cmd w) h)
  run-RefersActive (to_customers user now cmd ∷ rs) w h = run-RefersActive rs _ (
      CustomerEffect-RefersActive orm laws
        (handle-CustomerEffect orm laws reflector is_uuid is_email user now cmd w) h)

  run-UniqueIn_field :
      (field : UniqueField) (history : List Request) (w : World orm.Db)
      → UniqueIn orm field w.db
      → UniqueIn orm field (run dec orm reflector is_uuid is_email history w).db
  unfolding run step
  run-UniqueIn_field field [] w h = h
  run-UniqueIn_field field (to_orders user now cmd ∷ rs) w h = run-UniqueIn_field field rs _ (
      Effect-UniqueIn dec orm (intercept (some user)) field
        (handle-Effect dec orm laws reflector is_uuid user now cmd w) h)
  run-UniqueIn_field field (to_customers user now cmd ∷ rs) w h = run-UniqueIn_field field rs _ (
      CustomerEffect-UniqueIn orm laws field
        (handle-CustomerEffect orm laws reflector is_uuid is_email user now cmd w) h)

  -- After any history no two customers hold the same tax id, and no two the same passport number,
  -- if that was so before; customers that are deleted count.
  pub run-UniqueIn :
      (history : List Request) (w : World orm.Db)
      → UniqueIn orm tax_id w.db × UniqueIn orm passport_number w.db
      → UniqueIn orm tax_id (run dec orm reflector is_uuid is_email history w).db
        × UniqueIn orm passport_number (run dec orm reflector is_uuid is_email history w).db
  run-UniqueIn history w (t, p) =
      (run-UniqueIn_field tax_id history w t, run-UniqueIn_field passport_number history w p)

  -- After any history an order is still there, and what became of it: its status moved along the
  -- diagram, its owner is the same, its items and total are the same if it was not open, and if it
  -- was deleted it is deleted, with the same status, items and total.
  pub run-Became :
      (history : List Request) (w : World orm.Db) (id : Text) (o : Order)
      → orm.order_at w.db id ≡ some o
      → Became orm (run dec orm reflector is_uuid is_email history w).db id o
  unfolding run step
  run-Became [] w id o at = (o, at, Evolves-refl o)
  run-Became (to_orders user now cmd ∷ rs) w id o at =
      let (o', at', p) =
        Effect-Became dec orm (intercept (some user))
          (handle-Effect dec orm laws reflector is_uuid user now cmd w) id o at in
      let (o'', at'', q) =
        run-Became rs (OrderController.handle dec orm reflector is_uuid user now cmd w).1 id o'
          at' in
      (o'', at'', Evolves-trans p q)
  run-Became (to_customers user now cmd ∷ rs) w id o at =
      let (o', at', p) =
        CustomerEffect-Became orm
          (handle-CustomerEffect orm laws reflector is_uuid is_email user now cmd w) id o at in
      let (o'', at'', q) =
        run-Became rs (CustomerController.handle orm reflector is_uuid is_email user now cmd w).1 id
          o' at' in
      (o'', at'', Evolves-trans p q)
