-- ===== src/Order/Controller/Invariant.antt =====
-- A request of the order routes has one of the effects of the service, and so keeps its invariants.
use nest_order_api.Common.{
  ℕ, Text, ◌≡◌, refl, ◌≤◌, Bool, true, all, length, none, some, arith, Bool-cases, inl, inr,
}
use nest_order_api.Audit.{Store, intercept}
use nest_order_api.Auth.{RequestUser, can_activate}
use nest_order_api.Effects.{Action, ◌>>=◌, pure, Result-cases, Outcome-cases}
use nest_order_api.Money.{Decimal}
use nest_order_api.Order.Entity.{max_items_per_order}
use nest_order_api.Order.Request.{
  OrderCreateRequest, ItemQuantityUpdateRequest, is_valid_order_create_request,
  is_valid_item_request, is_valid_quantity, is_valid_quantity_update,
}
use nest_order_api.Order.Event.{World}
use nest_order_api.Order.Service
use nest_order_api.Order.Service.Effect.{Effect, same}
use nest_order_api.Order.Service.Changes.{
  create-Effect, find_by_id-Effect, delete-Effect, confirm-Effect, cancel-Effect, add_item-Effect,
  update_item_quantity-Effect, remove_item-Effect,
}
use nest_order_api.Order.Controller.{
  Command, create, find_by_id, delete, confirm, cancel, add_item, update_item_quantity, remove_item,
  handler_roles, class_roles, Reflector, is_accepted, execute, handle,
}
use nest_order_api.Orm.{Orm}
use nest_order_api.Orm.Laws.{OrmLaws}

-- What follows an action and does not touch the state.
pub then_pure :
    {S A B : Type 0} (P : S → Type 0) (m : Action S A) (f : A → B) (s : S)
    → P (m s).1
    → P ((m >>= λ a. pure (f a)) s).1
then_pure P m f s h = elim (Outcome-cases (m s)) [
  | inl (e, s', p) ↦ rw (p, ◌>>=◌) h
  | inr (a, s', p) ↦ rw (p, ◌>>=◌) h
]

accepted_items :
    (is_uuid : Text → Bool) (dto : OrderCreateRequest)
    → is_valid_order_create_request is_uuid dto ≡ true
    → (all is_valid_item_request dto.items ≡ true) × (length dto.items ≤ max_items_per_order)
unfolding is_valid_order_create_request
accepted_items is_uuid dto h = ground arith

pub accepted_quantity :
    (dto : ItemQuantityUpdateRequest)
    → is_valid_quantity_update dto ≡ true
    → is_valid_quantity dto.quantity ≡ true
unfolding is_valid_quantity_update
accepted_quantity dto h = h

module _ (dec : Decimal) (orm : Orm) (laws : OrmLaws orm) where
  execute-Effect :
      (is_uuid : Text → Bool) (store : Store) (now : ℕ) (cmd : Command) (w : World orm.Db)
      → is_accepted is_uuid cmd ≡ true
      → Effect dec orm store w.db (execute dec orm store now cmd w).1.db
  unfolding execute is_accepted
  execute-Effect is_uuid store now (create dto) w v =
      let (valid, few) = accepted_items is_uuid dto v in
      then_pure (λ w'. Effect dec orm store w.db w'.db) (Service.create dec orm store now dto) some
        w (create-Effect dec orm laws store now dto w valid few)
  execute-Effect is_uuid store now (find_by_id id) w v =
      then_pure (λ w'. Effect dec orm store w.db w'.db) (Service.find_by_id dec orm store now id)
        some w (find_by_id-Effect dec orm laws store now id w)
  execute-Effect is_uuid store now (delete id) w v =
      then_pure (λ w'. Effect dec orm store w.db w'.db) (Service.delete dec orm store now id)
        (λ _. none) w (delete-Effect dec orm laws store now id w)
  execute-Effect is_uuid store now (confirm id) w v =
      then_pure (λ w'. Effect dec orm store w.db w'.db) (Service.confirm dec orm store now id) some
        w (confirm-Effect dec orm laws store now id w)
  execute-Effect is_uuid store now (cancel id) w v =
      then_pure (λ w'. Effect dec orm store w.db w'.db) (Service.cancel dec orm store now id) some w
        (cancel-Effect dec orm laws store now id w)
  execute-Effect is_uuid store now (add_item id dto) w v =
      then_pure (λ w'. Effect dec orm store w.db w'.db) (Service.add_item dec orm store now id dto)
        some w (add_item-Effect dec orm laws store now id dto w (ground arith))
  execute-Effect is_uuid store now (update_item_quantity id item_id dto) w v =
      then_pure (λ w'. Effect dec orm store w.db w'.db)
        (Service.update_item_quantity dec orm store now id item_id dto) some w
        (update_item_quantity-Effect dec orm laws store now id item_id dto w
          (accepted_quantity dto (ground arith)))
  execute-Effect is_uuid store now (remove_item id item_id) w v =
      then_pure (λ w'. Effect dec orm store w.db w'.db)
        (Service.remove_item dec orm store now id item_id) some w
        (remove_item-Effect dec orm laws store now id item_id w)

  pub handle-Effect :
      (reflector : Reflector) (is_uuid : Text → Bool) (user : RequestUser) (now : ℕ) (cmd : Command)
      (w : World orm.Db)
      → Effect dec orm
          (intercept (some user))
          w.db
          (handle dec orm reflector is_uuid user now cmd w).1.db
  unfolding handle
  handle-Effect reflector is_uuid user now cmd w =
      elim (Result-cases (can_activate (reflector (handler_roles cmd) class_roles) (some user))) [
        | inl (e, h) ↦ rw (h, ◌>>=◌) (same refl)
        | inr (b, h) ↦
            rw (h, ◌>>=◌)
              (elim (Bool-cases (is_accepted is_uuid cmd)) [
                | inr refused ↦ rw refused (same refl)
                | inl accepted ↦
                    rw accepted (execute-Effect is_uuid (intercept (some user)) now cmd w accepted)
              ])
      ]
