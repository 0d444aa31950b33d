-- ===== src/Customer/Controller/Invariant.antt =====
-- A request of the customer routes has one of the effects of the service.
use nest_order_api.Common.{ℕ, Text, refl, Bool, none, some, Bool-cases, inl, inr}
use nest_order_api.Audit.{Store, intercept}
use nest_order_api.Auth.{RequestUser, can_activate}
use nest_order_api.Effects.{◌>>=◌, Result-cases}
use nest_order_api.Customer.Service
use nest_order_api.Customer.Service.Effect.{CustomerEffect, same}
use nest_order_api.Customer.Service.Methods.{
  create-CustomerEffect, find_by_id-CustomerEffect, update-CustomerEffect, delete-CustomerEffect,
}
use nest_order_api.Customer.Controller.{
  Command, create, find_by_id, delete, update, handler_roles, class_roles, transformed, is_accepted,
  execute, handle,
}
use nest_order_api.Order.Controller.{Reflector}
use nest_order_api.Order.Controller.Invariant.{then_pure}
use nest_order_api.Order.Event.{World}
use nest_order_api.Orm.{Orm}
use nest_order_api.Orm.Laws.{OrmLaws}

module _ (orm : Orm) (laws : OrmLaws orm) where
  execute-CustomerEffect :
      (store : Store) (now : ℕ) (cmd : Command) (w : World orm.Db)
      → CustomerEffect orm w.db (execute orm store now cmd w).1.db
  unfolding execute
  execute-CustomerEffect store now (create dto) w =
      then_pure (λ w'. CustomerEffect orm w.db w'.db) (Service.create orm store now dto) some w
        (create-CustomerEffect orm laws store now dto w)
  execute-CustomerEffect store now (find_by_id id) w =
      then_pure (λ w'. CustomerEffect orm w.db w'.db) (Service.find_by_id orm store now id) some w
        (find_by_id-CustomerEffect orm laws store now id w)
  execute-CustomerEffect store now (update id dto) w =
      then_pure (λ w'. CustomerEffect orm w.db w'.db) (Service.update orm store now id dto) some w
        (update-CustomerEffect orm laws store now id dto w)
  execute-CustomerEffect store now (delete id) w =
      then_pure (λ w'. CustomerEffect orm w.db w'.db) (Service.delete orm store now id) (λ _. none)
        w (delete-CustomerEffect orm laws store now id w)

  pub handle-CustomerEffect :
      (reflector : Reflector) (is_uuid is_email : Text → Bool) (user : RequestUser) (now : ℕ)
      (cmd : Command) (w : World orm.Db)
      → CustomerEffect orm w.db (handle orm reflector is_uuid is_email user now cmd w).1.db
  unfolding handle
  handle-CustomerEffect reflector is_uuid is_email user now cmd w =
      elim (Result-cases (can_activate (reflector (handler_roles cmd) class_roles) (some user))) [
        | inl (e, h) ↦ rw (h, ◌>>=◌) (same refl)
        | inr (b, h) ↦
            rw (h, ◌>>=◌)
              (elim (Bool-cases (is_accepted is_uuid is_email (transformed cmd))) [
                | inr refused ↦ rw refused (same refl)
                | inl accepted ↦
                    rw accepted
                      (execute-CustomerEffect (intercept (some user)) now (transformed cmd) w)
              ])
      ]
