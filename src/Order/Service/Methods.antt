-- ===== src/Order/Service/Methods.antt =====
-- The checks that every method of the service makes before it saves: what holds of the order then.
use nest_order_api.Common.{
  ℕ, Text, ◌≡◌, refl, ◌≢◌, ◌==◌, true, not, List, [], ◌∷◌, ◌++◌, length, leb, keep, find, arith,
  inl, inr, Option-cases, Bool-cases,
}
use nest_order_api.Audit.{Store}
use nest_order_api.Effects.{Action, ◌>>=◌, Result-cases}
use nest_order_api.Money.{Decimal}
use nest_order_api.Order.Status.{OrderStatus, opened, confirmed, canceled, can_transition}
use nest_order_api.Order.Status.Reach.{Step, can_transition_iff}
use nest_order_api.Order.Entity.{Item, Order, has_id, is_editable, max_items_per_order}
use nest_order_api.Order.Request.{
  ItemRequest, ItemQuantityUpdateRequest, is_valid_item_request, is_valid_quantity,
}
use nest_order_api.Order.Event.{World}
use nest_order_api.Order.Guards.{to_item_entity, set_quantity, with_total, find_item_or_throw}
use nest_order_api.Orm.{Orm}
use nest_order_api.Orm.Laws.{OrmLaws}
use nest_order_api.Order.Service
use nest_order_api.Order.Service.Effect.{Edit, appended, requantified, dropped}
use nest_order_api.Order.Service.Loaded.{
  Loaded, found, found-Loaded, editable_opened, length-ne-nil,
}

module _ (dec : Decimal) (orm : Orm) (laws : OrmLaws orm) (store : Store) (now : ℕ) where
  open orm use {Db, order_at, find_order, save_order}

  -- The item of the request was found.
  with_found_item :
      (P : World Db → Type 0) (item_id : Text) (o : Order)
      (k : Action (World Db) Service.OrderResponse) (w : World Db)
      → P w
      → P (k w).1
      → P ((find_item_or_throw o item_id >>= λ _. k) w).1
  unfolding find_item_or_throw
  with_found_item P item_id o k w none_found next =
      elim (Option-cases (find (has_id item_id) o.items)) [
        | inl e ↦ rw (e, ◌>>=◌) none_found
        | inr (it, e) ↦ rw (e, ◌>>=◌) next
      ]

  -- Every edit of the items that a method makes of an order: it is open, and the edit is one of three.
  abbrev pub AfterEdit : (World Db → Type 0) → World Db → Type 0
  AfterEdit P w =
      (o : Order) (items : List Item)
      → Loaded dec orm laws store now w.db o
      → o.status ≡ opened
      → Edit o.items items
      → P (Service.save_and_respond dec orm store now (with_total dec o items) w).1

  abbrev pub AfterMove : (World Db → Type 0) → World Db → Type 0
  AfterMove P w =
      (o : Order) (target : OrderStatus)
      → Loaded dec orm laws store now w.db o
      → Step o.status target
      → (target ≡ confirmed → o.items ≢ [])
      → P (Service.change_status dec orm store now o target w).1

  pub add_item_rule :
      (P : World Db → Type 0) (order_id : Text) (dto : ItemRequest) (w : World Db)
      → is_valid_item_request dto ≡ true
      → P w
      → AfterEdit P w
      → P (Service.add_item dec orm store now order_id dto w).1
  unfolding Service.add_item
  add_item_rule P order_id dto w valid stay next =
      elim (Result-cases (found dec orm laws store now order_id w.db)) [
        | inl (e, h) ↦ rw (h, ◌>>=◌) stay
        | inr (o, h) ↦
            rw (h, ◌>>=◌)
              (elim (Bool-cases (is_editable o.details)) [
                | inr frozen ↦ rw frozen stay
                | inl editable ↦
                    rw editable (elim (Bool-cases (leb max_items_per_order (length o.items))) [
                      | inl full ↦ rw full stay
                      | inr room ↦ rw room (
                          next o (o.items ++ to_item_entity dto ∷ [])
                            (found-Loaded dec orm laws store now w.db order_id o h)
                            (editable_opened dec orm laws store now o.details editable)
                            (appended dto valid (ground arith) refl))
                    ])
              ])
      ]

  pub update_item_quantity_rule :
      (P : World Db → Type 0) (order_id item_id : Text) (dto : ItemQuantityUpdateRequest)
      (w : World Db)
      → is_valid_quantity dto.quantity ≡ true
      → P w
      → AfterEdit P w
      → P (Service.update_item_quantity dec orm store now order_id item_id dto w).1
  unfolding Service.update_item_quantity
  update_item_quantity_rule P order_id item_id dto w valid stay next =
      elim (Result-cases (found dec orm laws store now order_id w.db)) [
        | inl (e, h) ↦ rw (h, ◌>>=◌) stay
        | inr (o, h) ↦
            rw (h, ◌>>=◌)
              (elim (Bool-cases (is_editable o.details)) [
                | inr frozen ↦ rw frozen stay
                | inl editable ↦ rw editable (
                    with_found_item P item_id o
                      (Service.save_and_respond dec orm store now
                        (with_total dec o (set_quantity item_id dto.quantity o.items)))
                      w stay
                      (next o (set_quantity item_id dto.quantity o.items)
                        (found-Loaded dec orm laws store now w.db order_id o h)
                        (editable_opened dec orm laws store now o.details editable)
                        (requantified item_id dto.quantity valid refl)))
              ])
      ]

  pub remove_item_rule :
      (P : World Db → Type 0) (order_id item_id : Text) (w : World Db)
      → P w
      → AfterEdit P w
      → P (Service.remove_item dec orm store now order_id item_id w).1
  unfolding Service.remove_item
  remove_item_rule P order_id item_id w stay next =
      elim (Result-cases (found dec orm laws store now order_id w.db)) [
        | inl (e, h) ↦ rw (h, ◌>>=◌) stay
        | inr (o, h) ↦
            rw (h, ◌>>=◌)
              (elim (Bool-cases (is_editable o.details)) [
                | inr frozen ↦ rw frozen stay
                | inl editable ↦ rw editable (
                    with_found_item P item_id o
                      (Service.save_and_respond dec orm store now
                        (with_total dec o (keep (λ it. not (has_id item_id it)) o.items)))
                      w stay
                      (next o (keep (λ it. not (has_id item_id it)) o.items)
                        (found-Loaded dec orm laws store now w.db order_id o h)
                        (editable_opened dec orm laws store now o.details editable)
                        (dropped item_id refl)))
              ])
      ]

  pub confirm_rule :
      (P : World Db → Type 0) (order_id : Text) (w : World Db)
      → P w
      → AfterMove P w
      → P (Service.confirm dec orm store now order_id w).1
  unfolding Service.confirm
  confirm_rule P order_id w stay next =
      elim (Result-cases (found dec orm laws store now order_id w.db)) [
        | inl (e, h) ↦ rw (h, ◌>>=◌) stay
        | inr (o, h) ↦
            rw (h, ◌>>=◌)
              (elim (Bool-cases (can_transition o.status confirmed)) [
                | inr denied ↦ rw denied stay
                | inl allowed ↦ rw allowed (elim (Bool-cases (length o.items == 0)) [
                  | inl empty ↦ rw empty stay
                  | inr filled ↦ rw filled (
                      next o confirmed (found-Loaded dec orm laws store now w.db order_id o h)
                        ((can_transition_iff o.status confirmed).0 allowed)
                        (λ _. length-ne-nil o.items filled))
                ])
              ])
      ]

  pub cancel_rule :
      (P : World Db → Type 0) (order_id : Text) (w : World Db)
      → P w
      → AfterMove P w
      → P (Service.cancel dec orm store now order_id w).1
  unfolding Service.cancel
  cancel_rule P order_id w stay next =
      elim (Result-cases (found dec orm laws store now order_id w.db)) [
        | inl (e, h) ↦ rw (h, ◌>>=◌) stay
        | inr (o, h) ↦
            rw (h, ◌>>=◌)
              (elim (Bool-cases (can_transition o.status canceled)) [
                | inr denied ↦ rw denied stay
                | inl allowed ↦ rw allowed (
                    next o canceled (found-Loaded dec orm laws store now w.db order_id o h)
                      ((can_transition_iff o.status canceled).0 allowed) (λ e. cc))
              ])
      ]
