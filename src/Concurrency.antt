-- ===== src/Concurrency.antt =====
-- Overlapping transactions on a customer's row: `create` of order.service.ts, which locks the row
-- FOR SHARE, and `delete` of customer.service.ts, which locks it FOR UPDATE (see
-- docs/adr/0004-customer-row-locking.md). `n` of them run a statement at a time, in any order, over
-- the committed rows; a lock is held until the transaction ends. Between the statements other
-- requests may write orders that exist.
mod Family
pub mod Moves
mod Writes
pub mod Fresh
pub mod Locking
pub mod Serial
pub mod References
pub mod Finish
pub mod Others
pub mod Orders
pub mod Invariant
pub use Family.*
use nest_order_api.Common.{
  ℕ, zero, suc, ◌<◌, Text, text_eq, Bool, true, false, not, ◌&&◌, ◌≡◌, Option, none, some,
  if◌then◌else◌,
}
use nest_order_api.Audit.{Store, current_username}
use nest_order_api.Effects.{Result, ok, err}
use nest_order_api.Errors.{Exception}
use nest_order_api.Money.{Decimal}
use nest_order_api.Customer.Entity.{Customer}
use nest_order_api.Customer.Lock.{lock_active_or_throw}
use nest_order_api.Customer.Service as CustomerService
use nest_order_api.Customer.Service.{has_orders, is_customer_associated_with_any_order}
use nest_order_api.Order.Entity.{Order}
use nest_order_api.Order.Guards.{insert_hook, new_order_data}
use nest_order_api.Order.Request.{OrderCreateRequest}
use nest_order_api.Order.Service as OrderService
use nest_order_api.Orm.{Orm, LockMode, pessimistic_read, pessimistic_write, Deletion}

-- The request behind a transaction, for the user of the store and at its time.
pub data Job : Type 0 where
  creating : Store → ℕ → OrderCreateRequest → Job
  deleting : Store → ℕ → Text → Job

-- The mode that the callback passes to `lockActiveOrThrow`, and the row that it locks.
abbrev pub mode_of : Job → LockMode
mode_of (creating store now dto) = pessimistic_read
mode_of (deleting store now id) = pessimistic_write

abbrev pub row_of : Job → Text
row_of (creating store now dto) = dto.customer_id
row_of (deleting store now id) = id

pub data Reply : Type 0 where
  created : Result Order → Reply
  deleted : Result (Unit {0}) → Reply

abbrev pub failed : Job → Exception → Reply
failed (creating store now dto) e = created (err e)
failed (deleting store now id) e = deleted (err e)

-- Where a transaction stands: the statement that it sends next, with the local variables.
pub data Pc : Type 0 where
  waiting : Job → Pc  -- SELECT … FOR SHARE, or FOR UPDATE
  inserting : Store → ℕ → OrderCreateRequest → Customer → Pc  -- the INSERT of `save`
  checking : Store → ℕ → Text → Pc  -- the query of `isCustomerAssociatedWithAnyOrder`
  updating : Store → ℕ → Text → Pc  -- the UPDATE of the soft delete
  done : Reply → Pc

abbrev pub job_of : Pc → Option Job
job_of (waiting job) = some job
job_of (inserting store now dto c) = some (creating store now dto)
job_of (checking store now id) = some (deleting store now id)
job_of (updating store now id) = some (deleting store now id)
job_of (done reply) = none

pub record Lock : Type 0 where
  pub mode : LockMode
  pub row : Text

abbrev pub lock_of : Job → Lock
lock_of job = record { mode = mode_of job; row = row_of job }

-- The lock that the next statement asks for, and the one that is held.
abbrev pub asked : Pc → Option Lock
asked (waiting job) = some (lock_of job)
asked _ = none

abbrev pub held : Pc → Option Lock
held (inserting store now dto c) = some (lock_of (creating store now dto))
held (checking store now id) = some (lock_of (deleting store now id))
held (updating store now id) = some (lock_of (deleting store now id))
held _ = none

-- The documented table of the row locks: FOR UPDATE conflicts with either mode.
pub record LockTable : Type 0 where
  pub conflicts : LockMode → LockMode → Bool
  pub conflicts_comm : (a b : LockMode) → conflicts a b ≡ conflicts b a
  pub write-conflicts : (a : LockMode) → conflicts pessimistic_write a ≡ true

module _ (locks : LockTable) where
  abbrev pub clash : Option Lock → Option Lock → Bool
  clash (some a) (some b) = text_eq a.row b.row && locks.conflicts a.mode b.mode
  clash _ _ = false

  -- No transaction holds a lock that conflicts with `asked`; otherwise the statement blocks.
  unfoldable pub granted : ℕ → (ℕ → Pc) → Option Lock → Bool
  granted zero pc lock = true
  granted (suc n) pc lock = not (clash (held (pc n)) lock) && granted n pc lock

module _ (dec : Decimal) (orm : Orm) where
  open orm use {Db, customer_at, order_at, insert_order, update_customer, transaction}

  -- The first statement: the row is read, or read again, when its lock is granted.
  unfoldable pub begin : Job → Db → Pc × Db
  unfolding lock_active_or_throw
  begin (creating store now dto) db =
      let job = creating store now dto in
      let (r, db') = lock_active_or_throw orm dto.customer_id (mode_of job) db in
      elim r [ ok c ↦ (inserting store now dto c, db') | err e ↦ (done (failed job e), db') ]
  begin (deleting store now id) db =
      let job = deleting store now id in
      let (r, db') = lock_active_or_throw orm id (mode_of job) db in
      elim r [ ok c ↦ (checking store now id, db') | err e ↦ (done (failed job e), db') ]

  -- The next statement; the last one is followed by the COMMIT, or the ROLLBACK where it threw.
  unfoldable pub advance : Pc → Db → Pc × Db
  unfolding is_customer_associated_with_any_order current_username
  advance (waiting job) db = begin job db
  advance (inserting store now dto c) db =
      let (r, db') = transaction (insert_order (insert_hook store) (new_order_data dec dto c)) db in
      (done (created r), db')
  advance (checking store now id) db =
      if is_customer_associated_with_any_order orm id db
      then (done (deleted (err (has_orders id))), db)
      else (updating store now id, db)
  advance (updating store now id) db =
      let deletion : Deletion = record { deleted_at = now; deleted_by = current_username store } in
      let (r, db') = transaction (update_customer id deletion) db in (done (deleted r), db')
  advance (done reply) db = (done reply, db)

  -- The transaction of a request when it runs alone.
  unfoldable pub serial : Job → Db → Reply × Db
  unfolding OrderService.create_in_transaction CustomerService.delete_in_transaction
  serial (creating store now dto) db =
      let (r, db') = transaction (OrderService.create_in_transaction dec orm store now dto) db in
      (created r, db')
  serial (deleting store now id) db =
      let (r, db') = transaction (CustomerService.delete_in_transaction orm store now id) db in
      (deleted r, db')

  -- What the other requests may commit: writes of orders that exist, which leave an order that is
  -- not deleted with its customer, and delete or restore none.
  pub record Elsewhere (db db' : Db) : Type 0 where
    pub customers : (j : Text) → customer_at db' j ≡ customer_at db j
    pub orders :
        (j : Text) (o' : Order)
        → order_at db' j ≡ some o'
        → o'.deleted_at ≡ none
        → (o : Order) × (order_at db j ≡ some o)
          × (o.deleted_at ≡ none)
          × (o'.customer ≡ o.customer)

  pub record System : Type 0 where
    pub db : Db
    pub pc : ℕ → Pc

  abbrev pub turn : System → ℕ → System
  turn s i = let (p, db) = advance (s.pc i) s.db in record { db = db; pc = update s.pc i p }

  pub data Step (locks : LockTable) (n : ℕ) (s : System) : System → Type 0 where
    pick :
        (i : ℕ) → i < n → granted locks n s.pc (asked (s.pc i)) ≡ true → Step locks n s (turn s i)
    elsewhere : (db' : Db) → Elsewhere s.db db' → Step locks n s (record s { db = db' })

  pub data Reach (locks : LockTable) (n : ℕ) (jobs : ℕ → Job) (db : Db) : System → Type 0 where
    start : Reach locks n jobs db (record { db = db; pc = λ i. waiting (jobs i) })
    later : {s t : System} → Reach locks n jobs db s → Step locks n s t → Reach locks n jobs db t
