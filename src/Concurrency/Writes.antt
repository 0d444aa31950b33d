-- ===== src/Concurrency/Writes.antt =====
-- What the two writes did, as far as the other transactions can tell.

use nest_order_api.Common.{
  ℕ, Text, text_eq, text_eq_iff, text_ne, ◌≡◌, refl, sym, ◌∙◌, ◌≢◌, false, Option, none, some, ◌⊎◌,
  inl, inr, Bool-cases, Option-cases, arith,
}
use nest_order_api.Audit.{Store}
use nest_order_api.Concurrency.Moves.{deletion_of}
use nest_order_api.Customer.Entity.{Customer}
use nest_order_api.Customer.Service.{is_order_of}
use nest_order_api.Customer.Service.References.{refreshed_Every}
use nest_order_api.Effects.{Result, ok, err}
use nest_order_api.Money.{Decimal}
use nest_order_api.Order.Entity.{Order}
use nest_order_api.Order.Guards.{insert_hook, new_order_data}
use nest_order_api.Order.Request.{OrderCreateRequest}
use nest_order_api.Order.Service.Consistent.{Every, written_Every}
use nest_order_api.Orm.{Orm, LockMode, active_customer}
use nest_order_api.Orm.Laws.{OrmLaws, OrderWritten, CustomerWritten, DeletedRow, refresh}

active_customer-some :
    (row : Option Customer) (c : Customer)
    → active_customer row ≡ some c
    → (row ≡ some c) × (c.deleted_at ≡ none)
active_customer-some none c h = cc
active_customer-some (some r) c h = elim (Option-cases r.deleted_at) [
  | inr (t, gone) ↦ absurd (cc (rw gone at h))
  | inl active ↦ ground arith
]

new_order_data-same_customer :
    (dec : Decimal) (dto : OrderCreateRequest) (c : Customer)
    → (new_order_data dec dto c).customer ≡ c
unfolding new_order_data
new_order_data-same_customer dec dto c = refl

module _ (orm : Orm) (laws : OrmLaws orm) where
  open orm use {
    Db, customer_at, order_at, lock_customer, order_exists, insert_order, update_customer,
    transaction,
  }

  pub unlocked_customer :
      (mode : LockMode) (id : Text) (db : Db) (c : Customer)
      → lock_customer mode id db ≡ some c
      → (customer_at db id ≡ some c) × (c.deleted_at ≡ none)
  unlocked_customer mode id db c h =
      active_customer-some (customer_at db id) c (sym (laws.lock_customer_lem mode id db) ∙ h)

  -- The order of an INSERT that committed belongs to the customer that was read.
  pub inserted_order :
      (dec : Decimal) (store : Store) (dto : OrderCreateRequest) (c : Customer) (db db' : Db)
      (r : Result Order)
      → transaction (insert_order (insert_hook store) (new_order_data dec dto c)) db ≡ (r, db')
      → (db' ≡ db) ⊎ ((s : Order) × (s.customer ≡ c) × OrderWritten orm db db' s)
  inserted_order dec store dto c db db' (err e) h = inl (laws.transaction_err _ db db' e h)
  inserted_order dec store dto c db db' (ok s) h =
      let (content, row, fresh, written) =
        laws.insert_order_lem (insert_hook store) (new_order_data dec dto c) db db' s
          (laws.transaction_ok _ db db' s h) in
      inr (s, content.customer ∙ new_order_data-same_customer dec dto c, written)

  pub removed_customer :
      (store : Store) (now : ℕ) (id : Text) (c : Customer) (db db' : Db) (r : Result (Unit {0}))
      → customer_at db id ≡ some c
      → transaction (update_customer id (deletion_of store now)) db ≡ (r, db')
      → (db' ≡ db)
        ⊎ ((r : Customer) × (r.id ≡ id)
            × (r.details ≡ c.details)
            × DeletedRow (deletion_of store now) c.versioned r.versioned
            × CustomerWritten orm db db' r)
  removed_customer store now id c db db' (err e) at h = inl (laws.transaction_err _ db db' e h)
  removed_customer store now id c db db' (ok _) at h = inr (
      laws.update_customer_lem id (deletion_of store now) c db db' at
        (laws.transaction_ok _ db db' tt h))

  -- Without an order of `id` that is not deleted, no row is one.
  pub unoccupied_Every :
      (id : Text) (db : Db)
      → order_exists (is_order_of id) db ≡ false
      → Every orm (λ o. is_order_of id o ≡ false) db
  unoccupied_Every id db empty j o at = laws.order_exists_false (is_order_of id) db j o empty at

  pub Every-unoccupied :
      (id : Text) (db : Db)
      → Every orm (λ o. is_order_of id o ≡ false) db
      → order_exists (is_order_of id) db ≡ false
  Every-unoccupied id db none_of = elim (Bool-cases (order_exists (is_order_of id) db)) [
    | inr e ↦ e
    | inl e ↦
        let (j, o, at, mine) = laws.order_exists_true (is_order_of id) db e in
        let free : is_order_of id o ≡ false = none_of j o at in absurd (cc)
  ]

  -- An order of another customer was written.
  pub inserted_elsewhere :
      (id : Text) (db db' : Db) (s : Order)
      → s.customer.id ≢ id
      → OrderWritten orm db db' s
      → order_exists (is_order_of id) db ≡ false
      → order_exists (is_order_of id) db' ≡ false
  inserted_elsewhere id db db' s other w empty = Every-unoccupied id db' (
      written_Every orm (λ o. is_order_of id o ≡ false) w (unoccupied_Every id db empty)
        (rw (text_ne s.customer.id id other) refl))

  refresh-is_order_of :
      (id : Text) (r : Customer) (o : Order) → is_order_of id (refresh r o) ≡ is_order_of id o
  refresh-is_order_of id r o = elim (Bool-cases (text_eq o.customer.id r.id)) [
    | inl e ↦ rw e (rw ((text_eq_iff o.customer.id r.id).0 e) refl)
    | inr e ↦ rw e refl
  ]

  -- A customer was written, and the orders show it.
  pub refreshed_elsewhere :
      (id : Text) (db db' : Db) (r : Customer)
      → CustomerWritten orm db db' r
      → order_exists (is_order_of id) db ≡ false
      → order_exists (is_order_of id) db' ≡ false
  refreshed_elsewhere id db db' r w empty = Every-unoccupied id db' (
      refreshed_Every orm (λ o. is_order_of id o ≡ false) r db db' w.orders
        (λ j o at. refresh-is_order_of id r o ∙ unoccupied_Every id db empty j o at))
