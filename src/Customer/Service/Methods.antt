-- ===== src/Customer/Service/Methods.antt =====
-- Every method of the customer service has one of the effects, whatever the database answers.
use nest_order_api.Common.{
  ℕ, Text, lit, ◌≡◌, refl, sym, ◌∙◌, ap, subst, true, false, [], ◌∷◌, Option, none, some, arith,
  ◌⊎◌, inl, inr, Bool-cases, Option-cases,
}
use nest_order_api.Errors.{Exception, ErrorCode, resource_not_found_customer}
use nest_order_api.Audit.{Store, current_username}
use nest_order_api.Effects.{Result, ok, err, ◌>>=◌, Result-cases, Outcome-cases}
use nest_order_api.Customer.Entity.{Customer}
use nest_order_api.Customer.Request.{CustomerRequest}
use nest_order_api.Customer.Service
use nest_order_api.Customer.Service.{
  UniqueField, tax_id, passport_number, text_of, holds_value, customer_data, has_orders,
  is_order_of, ensure_field_unique_or_throw, ensure_unique_or_throw,
}
use nest_order_api.Customer.Service.Effect.{
  Free, FreeValues, CustomerEffect, same, added, changed, removed,
}
use nest_order_api.Order.Event.{World}
use nest_order_api.Order.Guards.{insert_hook, update_hook}
use nest_order_api.Orm.{Orm, Deletion, active_customer, pessimistic_write}
use nest_order_api.Orm.Laws.{OrmLaws}
use nest_order_api.Crud.{or_not_found}

module _ (orm : Orm) where
  open orm use {Db, customer_at, customer_exists}

  field_check :
      (field : UniqueField) (value : Option Text) (code : ErrorCode) (message : Text)
      (exclude_id : Option Text) (w : World Db)
      → ((ensure_field_unique_or_throw orm field value code message exclude_id w).1 ≡ w)
        × ((ensure_field_unique_or_throw orm field value code message exclude_id w).0 ≡ ok tt
            → Free orm w.db field value exclude_id)
  unfolding ensure_field_unique_or_throw
  field_check field none code message exclude_id w = (refl, λ _ s e n. cc)
  field_check field (some []) code message exclude_id w = (refl, λ _ s e n. absurd (n (cc)))
  field_check field (some (x ∷ xs)) code message exclude_id w =
      elim (Bool-cases (customer_exists (holds_value field (x ∷ xs) exclude_id) w.db)) [
        | inl taken ↦ rw taken (refl, λ e. cc)
        | inr free ↦ rw free (
          refl,
          λ _ s e n.
              let same_text : x ∷ xs ≡ s = cc in
              subst (λ t. customer_exists (holds_value field t exclude_id) w.db ≡ false) same_text
                free,
        )
      ]

  unique_check :
      (dto : CustomerRequest) (exclude_id : Option Text) (w : World Db)
      → ((ensure_unique_or_throw orm dto exclude_id w).1 ≡ w)
        × ((ensure_unique_or_throw orm dto exclude_id w).0 ≡ ok tt
            → FreeValues orm w.db (customer_data dto) exclude_id)
  unfolding Service.ensure_unique_or_throw
  unique_check dto exclude_id w =
      let code = Service.validation_customer_taxid_exists in
      let message = lit "taxId already exists" in
      let code' = Service.validation_customer_passport_exists in
      let message' = lit "passportNumber already exists" in
      let (kept, free) = field_check tax_id (some dto.tax_id) code message exclude_id w in
      let passport = text_of dto.passport_number in
      elim (Outcome-cases
        (ensure_field_unique_or_throw orm tax_id (some dto.tax_id) code message exclude_id w)) [
          | inl (e, w', h) ↦ rw (h, ◌>>=◌) (kept, λ clash. cc)
          | inr (u, w', h) ↦
              let (kept', free') =
                field_check passport_number passport code' message' exclude_id w in
              rw (h, ◌>>=◌)
                (rw kept (
                  kept',
                  λ done. record { free_tax_id = free (rw h refl); free_passport = free' done },
                ))
        ]

  -- The checks leave the world alone; if they pass, the values are free.
  pub unique-cases :
      (dto : CustomerRequest) (exclude_id : Option Text) (w : World Db)
      → ((e : Exception) × (ensure_unique_or_throw orm dto exclude_id w ≡ (err e, w)))
        ⊎ ((ensure_unique_or_throw orm dto exclude_id w ≡ (ok tt, w))
            × FreeValues orm w.db (customer_data dto) exclude_id)
  unique-cases dto exclude_id w =
      let (kept, free) = unique_check dto exclude_id w in
      elim (Outcome-cases (ensure_unique_or_throw orm dto exclude_id w)) [
        | inl (e, w', h) ↦ let back : w' ≡ w = rw h at kept in inl (e, rw back at h)
        | inr (u, w', h) ↦ let back : w' ≡ w = rw h at kept in inr (rw back at h, free (rw h refl))
      ]

pub found_customer :
    (id : Text) (row : Option Customer) (c : Customer)
    → or_not_found (lit "Customer") resource_not_found_customer (λ _. true) id (active_customer row)
      ≡ ok c
    → (row ≡ some c) × (c.deleted_at ≡ none)
found_customer id none c h = cc
found_customer id (some r) c h = elim (Option-cases r.deleted_at) [
  | inr (t, gone) ↦ absurd (cc (rw gone at h))
  | inl active ↦ ground arith
]

module _ (orm : Orm) (laws : OrmLaws orm) (store : Store) (now : ℕ) where
  open orm use {
    Db, customer_at, find_customer, lock_customer, insert_customer, save_customer, update_customer,
    order_exists, transaction,
  }

  pub create-CustomerEffect :
      (dto : CustomerRequest) (w : World Db)
      → CustomerEffect orm w.db (Service.create orm store now dto w).1.db
  unfolding Service.create
  create-CustomerEffect dto w =
      let hook = insert_hook store in
      let d = customer_data dto in
      elim (unique-cases orm dto none w) [
        | inl (e, h) ↦ rw (h, ◌>>=◌) (rw h (same refl))
        | inr (h, free) ↦
            rw (h, ◌>>=◌)
              (rw h (elim (Outcome-cases (insert_customer hook d w.db)) [
                | inl (e, db', f) ↦
                    rw (f, ◌>>=◌) (rw f (same (laws.insert_customer_err hook d w.db db' e f)))
                | inr (s, db', f) ↦
                    let (r, key, _, content, stamps, row, fresh, at, others, orders) =
                      laws.insert_customer_lem hook d w.db db' s f in
                    rw (f, ◌>>=◌)
                      (rw f (
                        added d r free content (rw stamps row.active) (rw key fresh)
                          (subst (λ k. customer_at db' k ≡ some r) (sym key) at) (rw key others)
                          orders))
              ]))
      ]

  abbrev found : Text → Db → Result Customer
  found id db =
      or_not_found (lit "Customer") resource_not_found_customer (λ _. true) id (find_customer id db)

  found-at :
      (db : Db) (id : Text) (c : Customer)
      → found id db ≡ ok c
      → (c.id ≡ id) × (customer_at db c.id ≡ some c) × (c.deleted_at ≡ none)
  found-at db id c h =
      let (at, active) =
        found_customer id (customer_at db id) c (rw (laws.find_customer_lem id db) at h) in
      let key = laws.customer_key db id c at in
      (key, subst (λ k. customer_at db k ≡ some c) (sym key) at, active)

  pub update-CustomerEffect :
      (id : Text) (dto : CustomerRequest) (w : World Db)
      → CustomerEffect orm w.db (Service.update orm store now id dto w).1.db
  unfolding Service.update
  update-CustomerEffect id dto w = elim (Result-cases (found id w.db)) [
    | inl (e, h) ↦ rw (h, ◌>>=◌) (same refl)
    | inr (c, h) ↦
        rw (h, ◌>>=◌)
          (elim (unique-cases orm dto (some id) w) [
            | inl (e, g) ↦ rw (g, ◌>>=◌) (rw g (same refl))
            | inr (g, free) ↦
                let hook = update_hook store in
                let x : Customer = record c { details = customer_data dto } in
                let (own, at, active) = found-at w.db id c h in
                elim (Outcome-cases (save_customer hook x w.db)) [
                  | inl (e, db', f) ↦
                      rw (g, ◌>>=◌)
                        (rw g (
                          rw (f, ◌>>=◌) (rw f (same (laws.save_customer_err hook x w.db db' e f)))))
                  | inr (s, db', f) ↦
                      let (r, _, key, _, content, stamps, row, written) =
                        laws.save_customer_lem hook x c w.db db' s at f in
                      rw (g, ◌>>=◌)
                        (rw g (
                          rw (f, ◌>>=◌)
                            (rw f (
                              changed (customer_data dto) c r (rw key at) active
                                (rw (key ∙ own) free) content (rw stamps row.deleted_at ∙ active)
                                (rw stamps row.created_by) written))))
                ]
          ])
  ]

  pub find_by_id-CustomerEffect :
      (id : Text) (w : World Db)
      → CustomerEffect orm w.db (Service.find_by_id orm store now id w).1.db
  unfolding Service.find_by_id
  find_by_id-CustomerEffect id w = elim (Result-cases (found id w.db)) [
    | inl (e, h) ↦ rw (h, ◌>>=◌) (same refl)
    | inr (c, h) ↦ rw (h, ◌>>=◌) (same refl)
  ]

  abbrev deletion : Deletion
  deletion = record { deleted_at = now; deleted_by = current_username store }

  -- What a transaction that deleted a customer did.
  deleted :
      (id : Text) (db db' : Db)
      → Service.delete_in_transaction orm store now id db ≡ (ok tt, db')
      → (c : Customer) × (customer_at db id ≡ some c)
        × (c.deleted_at ≡ none)
        × (order_exists (is_order_of id) db ≡ false)
        × (update_customer id deletion db ≡ (ok tt, db'))
  unfolding Service.delete_in_transaction
  deleted id db db' h =
      let r =
        or_not_found (lit "Customer") resource_not_found_customer (λ (_ : Customer). true) id
          (lock_customer pessimistic_write id db) in
      elim (Result-cases r) [
        | inl (e, f) ↦
            let clash : ◌≡◌ {A = Result (Unit {0})} (err e) (ok tt) =
              ap (λ q. q.0) (rw (f, ◌>>=◌) at h) in
            absurd (cc)
        | inr (c, f) ↦
            let (at, active) =
              found_customer id (customer_at db id) c
                (rw (laws.lock_customer_lem pessimistic_write id db) at f) in
            elim (Bool-cases (order_exists (is_order_of id) db)) [
              | inl some_order ↦
                  let clash : ◌≡◌ {A = Result (Unit {0})} (err (has_orders id)) (ok tt) =
                    ap (λ q. q.0) (rw (f, some_order, ◌>>=◌) at h) in
                  absurd (cc)
              | inr no_order ↦ (c, at, active, no_order, rw (f, no_order, ◌>>=◌) at h)
            ]
      ]

  pub delete-CustomerEffect :
      (id : Text) (w : World Db) → CustomerEffect orm w.db (Service.delete orm store now id w).1.db
  unfolding Service.delete
  delete-CustomerEffect id w =
      let m = Service.delete_in_transaction orm store now id in
      elim (Outcome-cases (transaction m w.db)) [
        | inl (e, db', h) ↦ rw h (same (laws.transaction_err m w.db db' e h))
        | inr (u, db', h) ↦
            let (c, at, active, no_order, f) =
              deleted id w.db db' (laws.transaction_ok m w.db db' u h) in
            let (r, key, content, row, written) =
              laws.update_customer_lem id deletion c w.db db' at f in
            rw h (removed deletion c r (rw key at) active (rw key no_order) content row written)
      ]
