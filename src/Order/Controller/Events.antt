-- ===== src/Order/Controller/Events.antt =====
-- Which events a request of the order routes emits.
use nest_order_api.Common.{ℕ, Text, ◌≡◌, refl, Bool, true, none, some, arith, Bool-cases, inl, inr}
use nest_order_api.Audit.{Store, intercept}
use nest_order_api.Auth.{RequestUser, can_activate}
use nest_order_api.Effects.{◌>>=◌, Result-cases}
use nest_order_api.Money.{Decimal}
use nest_order_api.Order.Controller.{
  Command, create, find_by_id, delete, confirm, cancel, add_item, update_item_quantity, remove_item,
  handler_roles, class_roles, Reflector, is_accepted, execute, handle,
}
use nest_order_api.Order.Controller.Invariant.{then_pure, accepted_quantity}
use nest_order_api.Order.Event.{World}
use nest_order_api.Order.Service
use nest_order_api.Order.Service.Events.{
  Emission, silent, create-Emission, find_by_id-Emission, delete-Emission, confirm-Emission,
  cancel-Emission, add_item-Emission, update_item_quantity-Emission, remove_item-Emission,
}
use nest_order_api.Orm.{Orm}
use nest_order_api.Orm.Laws.{OrmLaws}

module _ (dec : Decimal) (orm : Orm) (laws : OrmLaws orm) where
  execute-Emission :
      (is_uuid : Text → Bool) (store : Store) (now : ℕ) (cmd : Command) (w : World orm.Db)
      → is_accepted is_uuid cmd ≡ true
      → Emission orm now w (execute dec orm store now cmd w).1
  unfolding execute is_accepted
  execute-Emission is_uuid store now (create dto) w v =
      then_pure (Emission orm now w) (Service.create dec orm store now dto) some w
        (create-Emission dec orm laws store now dto w)
  execute-Emission is_uuid store now (find_by_id id) w v =
      then_pure (Emission orm now w) (Service.find_by_id dec orm store now id) some w
        (find_by_id-Emission dec orm laws store now id w)
  execute-Emission is_uuid store now (delete id) w v =
      then_pure (Emission orm now w) (Service.delete dec orm store now id) (λ _. none) w
        (delete-Emission dec orm laws store now id w)
  execute-Emission is_uuid store now (confirm id) w v =
      then_pure (Emission orm now w) (Service.confirm dec orm store now id) some w
        (confirm-Emission dec orm laws store now id w)
  execute-Emission is_uuid store now (cancel id) w v =
      then_pure (Emission orm now w) (Service.cancel dec orm store now id) some w
        (cancel-Emission dec orm laws store now id w)
  execute-Emission is_uuid store now (add_item id dto) w v =
      then_pure (Emission orm now w) (Service.add_item dec orm store now id dto) some w
        (add_item-Emission dec orm laws store now id dto w (ground arith))
  execute-Emission is_uuid store now (update_item_quantity id item_id dto) w v =
      then_pure (Emission orm now w) (Service.update_item_quantity dec orm store now id item_id dto)
        some w
        (update_item_quantity-Emission dec orm laws store now id item_id dto w
          (accepted_quantity dto (ground arith)))
  execute-Emission is_uuid store now (remove_item id item_id) w v =
      then_pure (Emission orm now w) (Service.remove_item dec orm store now id item_id) some w
        (remove_item-Emission dec orm laws store now id item_id w)

  -- A request of the order routes emits no event; or it moved one order along a step of the diagram,
  -- stored that, and, if the stored customer has an address that is not blank, emitted one event
  -- more, which tells the order's id, both statuses, the stored total and the customer's name and
  -- address.
  pub handle-Emission :
      (reflector : Reflector) (is_uuid : Text → Bool) (user : RequestUser) (now : ℕ) (cmd : Command)
      (w : World orm.Db)
      → Emission orm now w (handle dec orm reflector is_uuid user now cmd w).1
  unfolding handle
  handle-Emission reflector is_uuid user now cmd w =
      elim (Result-cases (can_activate (reflector (handler_roles cmd) class_roles) (some user))) [
        | inl (e, h) ↦ rw (h, ◌>>=◌) (silent refl)
        | inr (b, h) ↦
            rw (h, ◌>>=◌)
              (elim (Bool-cases (is_accepted is_uuid cmd)) [
                | inr refused ↦ rw refused (silent refl)
                | inl accepted ↦
                    rw accepted
                      (execute-Emission is_uuid (intercept (some user)) now cmd w accepted)
              ])
      ]
