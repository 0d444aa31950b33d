-- ===== src/Order/Service/Changes.antt =====
-- Every method of the service has one of the effects, whatever the database answers.
use nest_order_api.Common.{
  ℕ, Text, lit, ◌≡◌, refl, sym, ◌∙◌, ap, subst, true, length, all, ◌≤◌, Option, none, some, arith,
  inl, inr, Option-cases,
}
use nest_order_api.Errors.{resource_not_found_customer}
use nest_order_api.Audit.{Store, current_username}
use nest_order_api.Effects.{Result, ok, err, ◌>>=◌, Result-cases, Outcome-cases}
use nest_order_api.Money.{Decimal}
use nest_order_api.Customer.Entity.{Customer}
use nest_order_api.Order.Entity.{Order, max_items_per_order}
use nest_order_api.Order.Request.{
  ItemRequest, ItemQuantityUpdateRequest, OrderCreateRequest, is_valid_item_request,
  is_valid_quantity,
}
use nest_order_api.Order.Event.{World}
use nest_order_api.Order.Guards.{insert_hook, new_order_data}
use nest_order_api.Orm.{Orm, Deletion, active_customer, pessimistic_read}
use nest_order_api.Orm.Laws.{OrmLaws, OrderWritten, DeletedRow}
use nest_order_api.Crud.{or_not_found}
use nest_order_api.Order.Service
use nest_order_api.Order.Service.Effect.{Effect, same, inserted, removed}
use nest_order_api.Order.Service.Loaded.{
  Loaded, found, found-Loaded, found-at, held, save_edited, change_moved, insert_hook-created_by,
}
use nest_order_api.Order.Service.Methods.{
  add_item_rule, update_item_quantity_rule, remove_item_rule, confirm_rule, cancel_rule,
}

module _ (dec : Decimal) (orm : Orm) (laws : OrmLaws orm) (store : Store) (now : ℕ) where
  open orm use {Db, order_at, find_order, save_order}

  pub add_item-Effect :
      (order_id : Text) (dto : ItemRequest) (w : World Db)
      → is_valid_item_request dto ≡ true
      → Effect dec orm store w.db (Service.add_item dec orm store now order_id dto w).1.db
  add_item-Effect order_id dto w valid =
      add_item_rule dec orm laws store now (λ w'. Effect dec orm store w.db w'.db) order_id dto w
        valid (same refl) (λ o items l s e. save_edited dec orm laws store now o items w l s e)

  pub update_item_quantity-Effect :
      (order_id item_id : Text) (dto : ItemQuantityUpdateRequest) (w : World Db)
      → is_valid_quantity dto.quantity ≡ true
      → Effect dec orm store w.db
          (Service.update_item_quantity dec orm store now order_id item_id dto w).1.db
  update_item_quantity-Effect order_id item_id dto w valid =
      update_item_quantity_rule dec orm laws store now (λ w'. Effect dec orm store w.db w'.db)
        order_id item_id dto w valid (same refl)
        (λ o items l s e. save_edited dec orm laws store now o items w l s e)

  pub remove_item-Effect :
      (order_id item_id : Text) (w : World Db)
      → Effect dec orm store w.db (Service.remove_item dec orm store now order_id item_id w).1.db
  remove_item-Effect order_id item_id w =
      remove_item_rule dec orm laws store now (λ w'. Effect dec orm store w.db w'.db) order_id
        item_id w (same refl) (λ o items l s e. save_edited dec orm laws store now o items w l s e)

  pub confirm-Effect :
      (order_id : Text) (w : World Db)
      → Effect dec orm store w.db (Service.confirm dec orm store now order_id w).1.db
  confirm-Effect order_id w =
      confirm_rule dec orm laws store now (λ w'. Effect dec orm store w.db w'.db) order_id w
        (same refl) (λ o target l s e. change_moved dec orm laws store now o target w l s e)

  pub cancel-Effect :
      (order_id : Text) (w : World Db)
      → Effect dec orm store w.db (Service.cancel dec orm store now order_id w).1.db
  cancel-Effect order_id w =
      cancel_rule dec orm laws store now (λ w'. Effect dec orm store w.db w'.db) order_id w
        (same refl) (λ o target l s e. change_moved dec orm laws store now o target w l s e)

  pub find_by_id-Effect :
      (id : Text) (w : World Db)
      → Effect dec orm store w.db (Service.find_by_id dec orm store now id w).1.db
  unfolding Service.find_by_id
  find_by_id-Effect id w = elim (Result-cases (found dec orm laws store now id w.db)) [
    | inl (e, h) ↦ rw (h, ◌>>=◌) (same refl)
    | inr (o, h) ↦ rw (h, ◌>>=◌) (same refl)
  ]

  pub delete_rule :
      (P : Db → Type 0) (id : Text) (w : World Db)
      → P w.db
      → ((o s : Order) (db' : Db)
          → Loaded dec orm laws store now w.db o
          → s.id ≡ o.id
          → s.details ≡ o.details
          → DeletedRow
              (record { deleted_at = now; deleted_by = current_username store })
              o.versioned
              s.versioned
          → OrderWritten orm w.db db' s
          → P db')
      → P (Service.delete dec orm store now id w).1.db
  unfolding Service.delete
  delete_rule P id w stay next = elim (Result-cases (found dec orm laws store now id w.db)) [
    | inl (e, h) ↦ rw (h, ◌>>=◌) stay
    | inr (o, h) ↦
        let d : Deletion = record { deleted_at = now; deleted_by = current_username store } in
        let l = found-Loaded dec orm laws store now w.db id o h in
        elim (Outcome-cases (orm.update_order id d w.db)) [
          | inl (t, db', f) ↦
              rw (h, ◌>>=◌) (rw f (subst P (sym (laws.update_order_err id d w.db db' t f)) stay))
          | inr (u, db', f) ↦
              let (s, key, content, row, written) =
                laws.update_order_lem id d o w.db db' (found-at dec orm laws store now w.db id o h)
                  f in
              let own : o.id ≡ id =
                laws.order_key w.db id o (found-at dec orm laws store now w.db id o h) in
              rw (h, ◌>>=◌) (rw f (next o s db' l (key ∙ sym own) content row written))
        ]
  ]

  pub delete-Effect :
      (id : Text) (w : World Db)
      → Effect dec orm store w.db (Service.delete dec orm store now id w).1.db
  delete-Effect id w =
      delete_rule (Effect dec orm store w.db) id w (same refl) (λ o s db' l key content row written.
        removed o s _ (held dec orm laws store now w.db o s key l) refl content row written)

  found_customer :
      (id : Text) (row : Option Customer) (c : Customer)
      → or_not_found
          (lit "Customer")
          resource_not_found_customer
          (λ _. true)
          id
          (active_customer row)
        ≡ ok c
      → (row ≡ some c) × (c.deleted_at ≡ none)
  found_customer id none c h = cc
  found_customer id (some r) c h = elim (Option-cases r.deleted_at) [
    | inr (t, gone) ↦ absurd (cc (rw gone at h))
    | inl active ↦ ground arith
  ]

  -- What a transaction that created an order did.
  created :
      (dto : OrderCreateRequest) (db db' : Db) (s : Order)
      → Service.create_in_transaction dec orm store now dto db ≡ (ok s, db')
      → (c : Customer) × (orm.customer_at db dto.customer_id ≡ some c)
        × (c.deleted_at ≡ none)
        × (orm.insert_order (insert_hook store) (new_order_data dec dto c) db ≡ (ok s, db'))
  unfolding Service.create_in_transaction
  created dto db db' s h =
      let r =
        or_not_found (lit "Customer") resource_not_found_customer (λ (_ : Customer). true)
          dto.customer_id (orm.lock_customer pessimistic_read dto.customer_id db) in
      elim (Result-cases r) [
        | inl (e, f) ↦
            let clash : ◌≡◌ {A = Result Order} (err e) (ok s) =
              ap (λ q. q.0) (rw (f, ◌>>=◌) at h) in
            absurd (cc)
        | inr (c, f) ↦
            let row = orm.customer_at db dto.customer_id in
            let (at, active) =
              found_customer dto.customer_id row c
                (rw (laws.lock_customer_lem pessimistic_read dto.customer_id db) at f) in
            (c, at, active, rw (f, ◌>>=◌) at h)
      ]

  pub create-Effect :
      (dto : OrderCreateRequest) (w : World Db)
      → all is_valid_item_request dto.items ≡ true
      → length dto.items ≤ max_items_per_order
      → Effect dec orm store w.db (Service.create dec orm store now dto w).1.db
  unfolding Service.create
  create-Effect dto w valid few =
      let m = Service.create_in_transaction dec orm store now dto in
      elim (Outcome-cases (orm.transaction m w.db)) [
        | inl (e, db', h) ↦ rw (h, ◌>>=◌) (rw h (same (laws.transaction_err m w.db db' e h)))
        | inr (s, db', h) ↦
            let (c, at, active, done) =
              created dto w.db db' s (laws.transaction_ok m w.db db' s h) in
            let (content, row, fresh, written) =
              laws.insert_order_lem (insert_hook store) (new_order_data dec dto c) w.db db' s
                done in
            rw (h, ◌>>=◌)
              (rw h (
                inserted dto c s valid few at active fresh content row.active
                  (row.created_by ∙ insert_hook-created_by store row.blank) written))
      ]
