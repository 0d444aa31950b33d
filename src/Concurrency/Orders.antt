-- ===== src/Concurrency/Orders.antt =====
-- The other requests on orders, which take no lock, as steps beside the transactions.
use nest_order_api.Common.{
  ℕ, Text, text_eq, text_eq_iff, ◌≡◌, refl, sym, ◌∙◌, ap, Bool, true, false, List, none, some, inl,
  inr, arith, Bool-cases,
}
use nest_order_api.Audit.{Store}
use nest_order_api.Concurrency.{Elsewhere}
use nest_order_api.Effects.{◌>>=◌, Result-cases}
use nest_order_api.Money.{Decimal}
use nest_order_api.Order.Controller.{
  Command, create, find_by_id, delete, confirm, cancel, add_item, update_item_quantity, remove_item,
  is_accepted, execute,
}
use nest_order_api.Order.Controller.Invariant.{then_pure, accepted_quantity}
use nest_order_api.Order.Entity.{Item, Order}
use nest_order_api.Order.Status.{OrderStatus}
use nest_order_api.Order.Event.{World}
use nest_order_api.Order.Guards.{with_total, with_status}
use nest_order_api.Order.Service
use nest_order_api.Order.Service.Changes.{delete_rule}
use nest_order_api.Order.Service.Loaded.{Loaded, found, save_edited_rule, change_status_rule}
use nest_order_api.Order.Service.Methods.{
  add_item_rule, update_item_quantity_rule, remove_item_rule, confirm_rule, cancel_rule,
}
use nest_order_api.Order.Service.Consistent.{text_ne_of}
use nest_order_api.Orm.{Orm}
use nest_order_api.Orm.Laws.{OrmLaws, OrderWritten, SameOrder}

module _ (dec : Decimal) (orm : Orm) where
  open orm use {Db, order_at}

  Elsewhere-refl : {db : Db} → Elsewhere dec orm db db
  Elsewhere-refl = record { customers = λ j. refl; orders = λ j o at active. (o, at, active, refl) }

  written_Elsewhere :
      {db db' : Db} (old s : Order)
      → order_at db s.id ≡ some old
      → old.deleted_at ≡ none
      → s.customer ≡ old.customer
      → OrderWritten orm db db' s
      → Elsewhere dec orm db db'
  written_Elsewhere {db} {db'} old s at active same w = record {
    customers = w.customers;
    orders = λ j o' at' here. elim (Bool-cases (text_eq j s.id)) [
      | inl e ↦
          let key : j ≡ s.id = (text_eq_iff j s.id).0 e in
          let own : some s ≡ some o' = sym w.row ∙ rw key at at' in
          let shows : s ≡ o' = cc in (old, rw key at, active, rw shows at same)
      | inr e ↦ (o', sym (w.others j (text_ne_of j s.id e)) ∙ at', here, refl)
    ];
  }

  module _ (laws : OrmLaws orm) (store : Store) (now : ℕ) (w : World Db) where
    saved_Elsewhere :
        (o x : Order)
        → Loaded dec orm laws store now w.db o
        → x.customer ≡ o.customer
        → (s : Order) (db' : Db) → s.id ≡ o.id
        → SameOrder x.details s.details
        → OrderWritten orm w.db db' s
        → Elsewhere dec orm w.db db'
    saved_Elsewhere o x l same s db' key content written =
        written_Elsewhere o s (rw key l.at) l.active (content.customer ∙ same) written

    with_total-same_customer :
        (o : Order) (items : List Item) → (with_total dec o items).customer ≡ o.customer
    unfolding with_total
    with_total-same_customer o items = refl

    edited_Elsewhere :
        (o : Order) (items : List Item)
        → Loaded dec orm laws store now w.db o
        → Elsewhere dec orm w.db
            (Service.save_and_respond dec orm store now (with_total dec o items) w).1.db
    edited_Elsewhere o items l =
        save_edited_rule dec orm laws store now (Elsewhere dec orm w.db) o w items l Elsewhere-refl
          (λ s db' key content row written.
            saved_Elsewhere o (with_total dec o items) l (with_total-same_customer o items) s db'
              key content written)

    moved_Elsewhere :
        (o : Order) (target : OrderStatus)
        → Loaded dec orm laws store now w.db o
        → Elsewhere dec orm w.db (Service.change_status dec orm store now o target w).1.db
    moved_Elsewhere o target l =
        change_status_rule dec orm laws store now (Elsewhere dec orm w.db) o w target l
          Elsewhere-refl
          (λ s db' key content row written.
            saved_Elsewhere o (with_status o target) l refl s db' key content written)

    deleted_Elsewhere :
        (id : Text) → Elsewhere dec orm w.db (Service.delete dec orm store now id w).1.db
    deleted_Elsewhere id =
        delete_rule dec orm laws store now (Elsewhere dec orm w.db) id w Elsewhere-refl
          (λ o s db' l key content row written.
            written_Elsewhere o s (rw key l.at) l.active (ap (λ d. d.customer) content) written)

    read_Elsewhere :
        (id : Text) → Elsewhere dec orm w.db (Service.find_by_id dec orm store now id w).1.db
    unfolding Service.find_by_id
    read_Elsewhere id = elim (Result-cases (found dec orm laws store now id w.db)) [
      | inl (e, h) ↦ rw (h, ◌>>=◌) Elsewhere-refl
      | inr (o, h) ↦ rw (h, ◌>>=◌) Elsewhere-refl
    ]

    abbrev is_creation : Command → Bool
    is_creation (create dto) = true
    is_creation _ = false

    abbrev Leaves : World Db → Type 0
    Leaves w' = Elsewhere dec orm w.db w'.db

    -- Every other request on orders is such a step, whoever sends it.
    pub execute-Elsewhere :
        (is_uuid : Text → Bool) (cmd : Command)
        → is_accepted is_uuid cmd ≡ true
        → is_creation cmd ≡ false
        → Elsewhere dec orm w.db (execute dec orm store now cmd w).1.db
    unfolding execute is_accepted
    execute-Elsewhere is_uuid (create dto) v other = cc
    execute-Elsewhere is_uuid (find_by_id id) v other =
        then_pure Leaves (Service.find_by_id dec orm store now id) some w (read_Elsewhere id)
    execute-Elsewhere is_uuid (delete id) v other =
        then_pure Leaves (Service.delete dec orm store now id) (λ _. none) w (deleted_Elsewhere id)
    execute-Elsewhere is_uuid (confirm id) v other =
        then_pure Leaves (Service.confirm dec orm store now id) some w (
          confirm_rule dec orm laws store now Leaves id w Elsewhere-refl
            (λ o target l _ _. moved_Elsewhere o target l))
    execute-Elsewhere is_uuid (cancel id) v other =
        then_pure Leaves (Service.cancel dec orm store now id) some w (
          cancel_rule dec orm laws store now Leaves id w Elsewhere-refl
            (λ o target l _ _. moved_Elsewhere o target l))
    execute-Elsewhere is_uuid (add_item id dto) v other =
        then_pure Leaves (Service.add_item dec orm store now id dto) some w (
          add_item_rule dec orm laws store now Leaves id dto w (ground arith) Elsewhere-refl
            (λ o items l _ _. edited_Elsewhere o items l))
    execute-Elsewhere is_uuid (update_item_quantity id item_id dto) v other =
        then_pure Leaves (Service.update_item_quantity dec orm store now id item_id dto) some w (
          update_item_quantity_rule dec orm laws store now Leaves id item_id dto w
            (accepted_quantity dto (ground arith)) Elsewhere-refl
            (λ o items l _ _. edited_Elsewhere o items l))
    execute-Elsewhere is_uuid (remove_item id item_id) v other =
        then_pure Leaves (Service.remove_item dec orm store now id item_id) some w (
          remove_item_rule dec orm laws store now Leaves id item_id w Elsewhere-refl
            (λ o items l _ _. edited_Elsewhere o items l))
