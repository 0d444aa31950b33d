-- ===== src/Concurrency/Moves.antt =====
-- The statements as a relation: what each of them found, by inversion of `advance`.
use nest_order_api.Common.{
  ℕ, Text, lit, ◌≡◌, refl, true, false, none, some, inl, inr, Bool-cases, Option-cases,
}
use nest_order_api.Audit.{Store, current_username}
use nest_order_api.Concurrency
use nest_order_api.Concurrency.{
  Job, creating, deleting, mode_of, row_of, created, deleted, failed, Pc, waiting, inserting,
  checking, updating, done, begin, advance,
}
use nest_order_api.Crud.{not_found}
use nest_order_api.Customer.Entity.{Customer}
use nest_order_api.Customer.Service.{is_order_of, has_orders}
use nest_order_api.Effects.{Result, err}
use nest_order_api.Errors.{resource_not_found_customer}
use nest_order_api.Money.{Decimal}
use nest_order_api.Order.Entity.{Order}
use nest_order_api.Order.Guards.{insert_hook, new_order_data}
use nest_order_api.Order.Request.{OrderCreateRequest}
use nest_order_api.Orm.{Orm, Deletion}

abbrev pub deletion_of : Store → ℕ → Deletion
deletion_of store now = record { deleted_at = now; deleted_by = current_username store }

module _ (dec : Decimal) (orm : Orm) where
  open orm use {Db, lock_customer, order_exists, insert_order, update_customer, transaction}

  pub data Move (db : Db) : Pc → Pc → Db → Type 0 where
    refused :
        {job : Job}
        → lock_customer (mode_of job) (row_of job) db ≡ none
        → Move db
            (waiting job)
            (done
              (failed job (not_found resource_not_found_customer (lit "Customer") (row_of job))))
            db
    shared :
        {store : Store} {now : ℕ} {dto : OrderCreateRequest} {c : Customer}
        → lock_customer (mode_of (creating store now dto)) dto.customer_id db ≡ some c
        → Move db (waiting (creating store now dto)) (inserting store now dto c) db
    owned :
        {store : Store} {now : ℕ} {id : Text} {c : Customer}
        → lock_customer (mode_of (deleting store now id)) id db ≡ some c
        → Move db (waiting (deleting store now id)) (checking store now id) db
    inserted :
        {store : Store} {now : ℕ} {dto : OrderCreateRequest} {c : Customer} {r : Result Order}
        {db' : Db}
        → transaction (insert_order (insert_hook store) (new_order_data dec dto c)) db ≡ (r, db')
        → Move db (inserting store now dto c) (done (created r)) db'
    occupied :
        {store : Store} {now : ℕ} {id : Text}
        → order_exists (is_order_of id) db ≡ true
        → Move db (checking store now id) (done (deleted (err (has_orders id)))) db
    unoccupied :
        {store : Store} {now : ℕ} {id : Text}
        → order_exists (is_order_of id) db ≡ false
        → Move db (checking store now id) (updating store now id) db
    updated :
        {store : Store} {now : ℕ} {id : Text} {r : Result (Unit {0})} {db' : Db}
        → transaction (update_customer id (deletion_of store now)) db ≡ (r, db')
        → Move db (updating store now id) (done (deleted r)) db'
    rested : {reply : Concurrency.Reply} → Move db (done reply) (done reply) db

  begin-Move :
      (job : Job) (db : Db)
      → Move db (waiting job) (begin dec orm job db).0 (begin dec orm job db).1
  unfolding begin
  begin-Move (creating store now dto) db =
      elim (Option-cases (lock_customer (mode_of (creating store now dto)) dto.customer_id db)) [
        | inl e ↦ rw (e, begin) (refused e)
        | inr (c, e) ↦ rw (e, begin) (shared e)
      ]
  begin-Move (deleting store now id) db =
      elim (Option-cases (lock_customer (mode_of (deleting store now id)) id db)) [
        | inl e ↦ rw (e, begin) (refused e)
        | inr (c, e) ↦ rw (e, begin) (owned e)
      ]

  pub advance-Move :
      (p : Pc) (db : Db) → Move db p (advance dec orm p db).0 (advance dec orm p db).1
  unfolding advance
  advance-Move (waiting job) db = begin-Move job db
  advance-Move (inserting store now dto c) db = inserted refl
  advance-Move (checking store now id) db = elim (Bool-cases (order_exists (is_order_of id) db)) [
    | inl e ↦ rw (e, advance) (occupied e)
    | inr e ↦ rw (e, advance) (unoccupied e)
  ]
  advance-Move (updating store now id) db = updated refl
  advance-Move (done reply) db = rested
