-- ===== src/Concurrency/Serial.antt =====
-- The overlapping transactions do what some order of whole transactions does.
use nest_order_api.Common.{ℕ, ◌<◌, Text, lit, ◌≡◌, refl, true, false, Option, none, some}
use nest_order_api.Audit.{Store}
use nest_order_api.Concurrency.{
  Job, creating, deleting, mode_of, row_of, failed, Pc, done, job_of, LockTable, advance, serial,
  System, Reach,
}
use nest_order_api.Concurrency.Fresh.{IsFresh}
use nest_order_api.Concurrency.Invariant.{Reach-Inv}
use nest_order_api.Concurrency.Moves.{
  deletion_of, Move, refused, shared, owned, inserted, occupied, unoccupied, updated, rested,
  advance-Move,
}
use nest_order_api.Crud.{not_found}
use nest_order_api.Customer.Entity.{Customer}
use nest_order_api.Customer.Service as CustomerService
use nest_order_api.Customer.Service.{is_order_of, has_orders}
use nest_order_api.Effects.{err, ◌>>=◌}
use nest_order_api.Errors.{Exception, resource_not_found_customer}
use nest_order_api.Money.{Decimal}
use nest_order_api.Order.Guards.{insert_hook, new_order_data}
use nest_order_api.Order.Request.{OrderCreateRequest}
use nest_order_api.Order.Service as OrderService
use nest_order_api.Orm.{Orm, pessimistic_read, pessimistic_write}
use nest_order_api.Orm.Laws.{OrmLaws}

abbrev no_customer : Text → Exception
no_customer id = not_found resource_not_found_customer (lit "Customer") id

module _ (dec : Decimal) (orm : Orm) where
  open orm use {Db, lock_customer, order_exists, insert_order, update_customer}

  -- A statement that ends a transaction leaves the reply and the rows that the whole transaction,
  -- run alone at that moment, does; any other statement changes no row.
  abbrev pub Serves : Option Job → Db → Pc → Db → Type 0
  Serves (some job) db (done reply) db' = serial dec orm job db ≡ (reply, db')
  Serves _ db _ db' = db' ≡ db

  module _ (store : Store) (now : ℕ) (db : Db) where
    create_found :
        (dto : OrderCreateRequest) (c : Customer)
        → lock_customer pessimistic_read dto.customer_id db ≡ some c
        → OrderService.create_in_transaction dec orm store now dto db
          ≡ insert_order (insert_hook store) (new_order_data dec dto c) db
    unfolding OrderService.create_in_transaction
    create_found dto c e = rw (e, OrderService.create_in_transaction, ◌>>=◌) refl

    create_refused :
        (dto : OrderCreateRequest)
        → lock_customer pessimistic_read dto.customer_id db ≡ none
        → OrderService.create_in_transaction dec orm store now dto db
          ≡ (err (no_customer dto.customer_id), db)
    unfolding OrderService.create_in_transaction
    create_refused dto e = rw (e, OrderService.create_in_transaction, ◌>>=◌) refl

    delete_refused :
        (id : Text)
        → lock_customer pessimistic_write id db ≡ none
        → CustomerService.delete_in_transaction orm store now id db ≡ (err (no_customer id), db)
    unfolding CustomerService.delete_in_transaction
    delete_refused id e = rw (e, CustomerService.delete_in_transaction, ◌>>=◌) refl

    delete_occupied :
        (id : Text) (c : Customer)
        → lock_customer pessimistic_write id db ≡ some c
        → order_exists (is_order_of id) db ≡ true
        → CustomerService.delete_in_transaction orm store now id db ≡ (err (has_orders id), db)
    unfolding CustomerService.delete_in_transaction
    delete_occupied id c e f = rw (e, f, CustomerService.delete_in_transaction, ◌>>=◌) refl

    delete_found :
        (id : Text) (c : Customer)
        → lock_customer pessimistic_write id db ≡ some c
        → order_exists (is_order_of id) db ≡ false
        → CustomerService.delete_in_transaction orm store now id db
          ≡ update_customer id (deletion_of store now) db
    unfolding CustomerService.delete_in_transaction
    delete_found id c e f = rw (e, f, CustomerService.delete_in_transaction, ◌>>=◌) refl

  module _ (laws : OrmLaws orm) where
    refused_serial :
        (job : Job) (db : Db)
        → lock_customer (mode_of job) (row_of job) db ≡ none
        → serial dec orm job db ≡ (failed job (no_customer (row_of job)), db)
    unfolding serial
    refused_serial (creating store now dto) db e =
        rw
          (laws.transaction_throws (OrderService.create_in_transaction dec orm store now dto) db db
            (no_customer dto.customer_id) (create_refused store now db dto e))
          refl
    refused_serial (deleting store now id) db e =
        rw
          (laws.transaction_throws (CustomerService.delete_in_transaction orm store now id) db db
            (no_customer id) (delete_refused store now db id e))
          refl

    Move-Serves :
        {db db' : Db} {p p' : Pc}
        → Move dec orm db p p' db'
        → IsFresh orm db p
        → Serves (job_of p) db p' db'
    unfolding serial
    Move-Serves {db} (refused {job} e) fresh = refused_serial job db e
    Move-Serves (shared _) fresh = refl
    Move-Serves (owned _) fresh = refl
    Move-Serves {db} (inserted {store} {now} {dto} {c} h) fresh =
        rw
          (
            laws.transaction_same (OrderService.create_in_transaction dec orm store now dto)
                (insert_order (insert_hook store) (new_order_data dec dto c)) db
                (create_found store now db dto c fresh),
            h,
          )
          refl
    Move-Serves {db} (occupied {store} {now} {id} e) (c, fresh) =
        rw
          (laws.transaction_throws (CustomerService.delete_in_transaction orm store now id) db db
            (has_orders id) (delete_occupied store now db id c fresh e))
          refl
    Move-Serves (unoccupied _) fresh = refl
    Move-Serves {db} (updated {store} {now} {id} h) ((c, fresh), empty) =
        rw
          (
            laws.transaction_same (CustomerService.delete_in_transaction orm store now id)
                (update_customer id (deletion_of store now)) db
                (delete_found store now db id c fresh empty),
            h,
          )
          refl
    Move-Serves rested fresh = refl

    -- (comment)
    pub Reach-Serves :
        (locks : LockTable) (n : ℕ) (jobs : ℕ → Job) (db : Db) (s : System dec orm)
        → Reach dec orm locks n jobs db s
        → (i : ℕ) → i < n
        → Serves
            (job_of (s.pc i))
            s.db
            (advance dec orm (s.pc i) s.db).0
            (advance dec orm (s.pc i) s.db).1
    Reach-Serves locks n jobs db s r i lt =
        Move-Serves (advance-Move dec orm (s.pc i) s.db)
          ((Reach-Inv dec orm laws locks n r).fresh i lt)
