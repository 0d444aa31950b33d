-- ===== src/Order/Service/Events.antt =====
-- Which events the methods of the service emit.
use nest_order_api.Common.{
  ℕ, Text, ◌≡◌, refl, sym, subst, true, List, ◌∷◌, some, Bool-cases, inl, inr, if◌then◌else◌,
}
use nest_order_api.Audit.{Store}
use nest_order_api.Effects.{◌>>=◌, ◌>>◌, pure, Outcome-cases, Result-cases}
use nest_order_api.Money.{Decimal}
use nest_order_api.Order.Entity.{Order, OrderResponse, order_response}
use nest_order_api.Order.Event.{OrderStatusChangedEvent, World}
use nest_order_api.Order.Guards.{with_total, with_status, update_hook}
use nest_order_api.Order.Status.{OrderStatus}
use nest_order_api.Order.Service
use nest_order_api.Order.Service.Loaded.{Loaded, found}
use nest_order_api.Order.Service.Methods.{
  add_item_rule, update_item_quantity_rule, remove_item_rule, confirm_rule, cancel_rule,
}
use nest_order_api.Order.Request.{
  ItemRequest, ItemQuantityUpdateRequest, OrderCreateRequest, is_valid_item_request,
  is_valid_quantity,
}
use nest_order_api.Order.Status.Reach.{Step}
use nest_order_api.Orm.Laws.{OrmLaws}
use nest_order_api.Orm.{Orm}
use nest_order_api.StringUtils.{is_not_blank}

-- The event of an order that was saved.
abbrev pub event_of : ℕ → OrderStatus → OrderStatus → Order → OrderStatusChangedEvent
event_of now old_status new_status saved = record {
  order_id = saved.id;
  customer_email = saved.customer.email;
  customer_name = saved.customer.name;
  old_status = old_status;
  new_status = new_status;
  total_amount = saved.total;
  changed_at = now;
}

-- Events after an order was saved with a new status: one more, if there is an address to write to.
abbrev pub announced :
    ℕ
    → OrderStatus
    → OrderStatus
    → Order
    → List OrderStatusChangedEvent
    → List OrderStatusChangedEvent
announced now old_status new_status saved events =
    if is_not_blank (some saved.customer.email)
    then event_of now old_status new_status saved ∷ events
    else events

-- What a request did to the events: nothing; or it moved an order to another status and, if the
-- customer of the row that was stored has an address, told so, with what that row holds.
pub data Emission (orm : Orm) (now : ℕ) (w w' : World orm.Db) : Type 0 where
  silent : w'.emitted ≡ w.emitted → Emission orm now w w'
  moved :
      (old saved : Order)
      → orm.order_at w.db saved.id ≡ some old
      → orm.order_at w'.db saved.id ≡ some saved
      → Step old.status saved.status
      → w'.emitted ≡ announced now old.status saved.status saved w.emitted
      → Emission orm now w w'

module _ (dec : Decimal) (orm : Orm) (laws : OrmLaws orm) (store : Store) (now : ℕ) where
  open orm use {Db, save_order}

  notify_lem :
      (s t : OrderStatus) (saved : Order) (r : OrderResponse) (w : World Db)
      → ((Service.notify dec orm store now s t saved >> pure r) w).1
        ≡ record w { emitted = announced now s t saved w.emitted }
  unfolding Service.notify is_not_blank
  notify_lem s t saved r w = elim (Bool-cases (is_not_blank (some saved.customer.email))) [
    | inl e ↦ rw e refl
    | inr e ↦ rw e refl
  ]

  saved_silent :
      (o : Order) (w : World Db)
      → Emission orm now w (Service.save_and_respond dec orm store now o w).1
  unfolding Service.save_and_respond
  saved_silent o w = elim (Outcome-cases (save_order (update_hook store) o w.db)) [
    | inl (t, db', h) ↦ rw (h, ◌>>=◌) (silent refl)
    | inr (s, db', h) ↦ rw (h, ◌>>=◌) (silent refl)
  ]

  change-Emission :
      (o : Order) (target : OrderStatus) (w : World Db)
      → Loaded dec orm laws store now w.db o
      → Step o.status target
      → Emission orm now w (Service.change_status dec orm store now o target w).1
  unfolding Service.change_status
  change-Emission o target w l step =
      let x = with_status o target in
      let hook = update_hook store in
      elim (Outcome-cases (save_order hook x w.db)) [
        | inl (t, db', h) ↦ rw (h, ◌>>=◌) (silent refl)
        | inr (s, db', h) ↦
            let (key, content, row, written) =
              laws.save_order_lem hook x o w.db db' s l.at refl h in
            rw (h, ◌>>=◌)
              (subst (Emission orm now w)
                (sym (notify_lem o.status target s (order_response dec s) _))
                (rw h (
                  moved o s (rw key l.at) written.row (rw content.status step)
                    (rw content.status refl))))
      ]

  pub add_item-Emission :
      (order_id : Text) (dto : ItemRequest) (w : World Db)
      → is_valid_item_request dto ≡ true
      → Emission orm now w (Service.add_item dec orm store now order_id dto w).1
  add_item-Emission order_id dto w valid =
      add_item_rule dec orm laws store now (Emission orm now w) order_id dto w valid (silent refl)
        (λ o items l s e. saved_silent (with_total dec o items) w)

  pub update_item_quantity-Emission :
      (order_id item_id : Text) (dto : ItemQuantityUpdateRequest) (w : World Db)
      → is_valid_quantity dto.quantity ≡ true
      → Emission orm now w (Service.update_item_quantity dec orm store now order_id item_id dto w).1
  update_item_quantity-Emission order_id item_id dto w valid =
      update_item_quantity_rule dec orm laws store now (Emission orm now w) order_id item_id dto w
        valid (silent refl) (λ o items l s e. saved_silent (with_total dec o items) w)

  pub remove_item-Emission :
      (order_id item_id : Text) (w : World Db)
      → Emission orm now w (Service.remove_item dec orm store now order_id item_id w).1
  remove_item-Emission order_id item_id w =
      remove_item_rule dec orm laws store now (Emission orm now w) order_id item_id w (silent refl)
        (λ o items l s e. saved_silent (with_total dec o items) w)

  pub confirm-Emission :
      (order_id : Text) (w : World Db)
      → Emission orm now w (Service.confirm dec orm store now order_id w).1
  confirm-Emission order_id w =
      confirm_rule dec orm laws store now (Emission orm now w) order_id w (silent refl)
        (λ o target l s e. change-Emission o target w l s)

  pub cancel-Emission :
      (order_id : Text) (w : World Db)
      → Emission orm now w (Service.cancel dec orm store now order_id w).1
  cancel-Emission order_id w =
      cancel_rule dec orm laws store now (Emission orm now w) order_id w (silent refl)
        (λ o target l s e. change-Emission o target w l s)

  pub find_by_id-Emission :
      (id : Text) (w : World Db) → Emission orm now w (Service.find_by_id dec orm store now id w).1
  unfolding Service.find_by_id
  find_by_id-Emission id w = elim (Result-cases (found dec orm laws store now id w.db)) [
    | inl (e, h) ↦ rw (h, ◌>>=◌) (silent refl)
    | inr (o, h) ↦ rw (h, ◌>>=◌) (silent refl)
  ]

  pub delete-Emission :
      (id : Text) (w : World Db) → Emission orm now w (Service.delete dec orm store now id w).1
  unfolding Service.delete
  delete-Emission id w = elim (Result-cases (found dec orm laws store now id w.db)) [
    | inl (e, h) ↦ rw (h, ◌>>=◌) (silent refl)
    | inr (o, h) ↦ rw (h, ◌>>=◌) (silent refl)
  ]

  pub create-Emission :
      (dto : OrderCreateRequest) (w : World Db)
      → Emission orm now w (Service.create dec orm store now dto w).1
  unfolding Service.create
  create-Emission dto w =
      elim (Outcome-cases
        (orm.transaction (Service.create_in_transaction dec orm store now dto) w.db)) [
          | inl (e, db', h) ↦ rw (h, ◌>>=◌) (silent refl)
          | inr (s, db', h) ↦ rw (h, ◌>>=◌) (silent refl)
        ]
