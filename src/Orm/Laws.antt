-- ===== src/Orm/Laws.antt =====
-- The documented behaviour of the ORM that the services rely on.
use mathlib.Core.Option
use nest_order_api.Common.{Text, ◌≡◌, ◌≢◌, Bool, true, false, none, some, text_eq, if◌then◌else◌}
use nest_order_api.Values.{Optional, unset, cleared, given}
use nest_order_api.Errors.{Exception}
use nest_order_api.Audit.{Audit, Versioned}
use nest_order_api.Effects.{ok, err, Action}
use nest_order_api.Customer.Entity.{CustomerData, Customer}
use nest_order_api.Order.Entity.{OrderData, Order, lines}
use nest_order_api.Orm.{Orm, Hook, Deletion, LockMode, active_customer, active_order}

-- A property that is `undefined` is not written.
abbrev pub written_optional : Optional → Optional → Optional
written_optional old unset = old
written_optional old cleared = cleared
written_optional old (given s) = given s

-- The row of a new entity, and of one that was loaded, changed and saved.
pub record InsertedRow (hook : Hook) (v : Versioned) : Type 0 where
  pub blank : Audit
  pub created_by : v.created_by ≡ (hook blank).created_by
  pub active : v.deleted_at ≡ none

pub record SavedRow (old v : Versioned) : Type 0 where
  pub created_by : v.created_by ≡ old.created_by
  pub deleted_at : v.deleted_at ≡ old.deleted_at

pub record DeletedRow (d : Deletion) (old v : Versioned) : Type 0 where
  pub created_by : v.created_by ≡ old.created_by
  pub deleted_at : v.deleted_at ≡ some d.deleted_at
  pub deleted_by : v.deleted_by ≡ some d.deleted_by

-- What the ORM returns for the order that it was given: the same columns, the items with their ids.
pub record SameOrder (o s : OrderData) : Type 0 where
  pub customer : s.customer ≡ o.customer
  pub same_lines : lines s.items ≡ lines o.items
  pub total : s.total ≡ o.total
  pub status : s.status ≡ o.status

-- An order shows the row of its customer.
abbrev pub refresh : Customer → Order → Order
refresh c o =
    if text_eq o.customer.id c.id
    then record o { details = record o.details { customer = c } }
    else o

module _ (orm : Orm) where
  open orm use {
    Db, customer_at, order_at, find_customer, find_order, lock_customer, customer_exists,
    order_exists, insert_customer, save_customer, update_customer, insert_order, save_order,
    update_order, transaction,
  }

  -- One order row was written, and nothing else.
  pub record OrderWritten (db db' : Db) (r : Order) : Type 0 where
    pub row : order_at db' r.id ≡ some r
    pub others : (j : Text) → j ≢ r.id → order_at db' j ≡ order_at db j
    pub customers : (j : Text) → customer_at db' j ≡ customer_at db j

  -- One customer row was written; the orders of that customer show it.
  pub record CustomerWritten (db db' : Db) (r : Customer) : Type 0 where
    pub row : customer_at db' r.id ≡ some r
    pub others : (j : Text) → j ≢ r.id → customer_at db' j ≡ customer_at db j
    pub orders : (j : Text) → order_at db' j ≡ Option.map (refresh r) (order_at db j)

  pub record OrmLaws : Type 1 where
    pub customer_key : (db : Db) (id : Text) (c : Customer) → customer_at db id ≡ some c → c.id ≡ id
    pub order_key : (db : Db) (id : Text) (o : Order) → order_at db id ≡ some o → o.id ≡ id
    pub find_customer_lem :
        (id : Text) (db : Db) → find_customer id db ≡ active_customer (customer_at db id)
    pub find_order_lem : (id : Text) (db : Db) → find_order id db ≡ active_order (order_at db id)
    pub lock_customer_lem :
        (mode : LockMode) (id : Text) (db : Db)
        → lock_customer mode id db ≡ active_customer (customer_at db id)
    pub customer_exists_true :
        (p : Customer → Bool) (db : Db)
        → customer_exists p db ≡ true
        → (id : Text) × (c : Customer) × (customer_at db id ≡ some c) × (p c ≡ true)
    pub customer_exists_false :
        (p : Customer → Bool) (db : Db) (id : Text) (c : Customer)
        → customer_exists p db ≡ false
        → customer_at db id ≡ some c
        → p c ≡ false
    pub order_exists_false :
        (p : Order → Bool) (db : Db) (id : Text) (o : Order)
        → order_exists p db ≡ false
        → order_at db id ≡ some o
        → p o ≡ false
    pub order_exists_true :
        (p : Order → Bool) (db : Db)
        → order_exists p db ≡ true
        → (id : Text) × (o : Order) × (order_at db id ≡ some o) × (p o ≡ true)
    pub insert_customer_lem :
        (hook : Hook) (d : CustomerData) (db db' : Db) (s : Customer)
        → insert_customer hook d db ≡ (ok s, db')
        → (r : Customer) × (r.id ≡ s.id)
          × (s.details ≡ d)
          × (r.details ≡ record d { passport_number = written_optional cleared d.passport_number })
          × (r.versioned ≡ s.versioned)
          × InsertedRow hook s.versioned
          × (customer_at db s.id ≡ none)
          × (customer_at db' s.id ≡ some r)
          × ((j : Text) → j ≢ s.id → customer_at db' j ≡ customer_at db j)
          × ((j : Text) → order_at db' j ≡ order_at db j)
    pub save_customer_lem :
        (hook : Hook) (c old : Customer) (db db' : Db) (s : Customer)
        → customer_at db c.id ≡ some old
        → save_customer hook c db ≡ (ok s, db')
        → (r : Customer) × (s.id ≡ c.id)
          × (r.id ≡ c.id)
          × (s.details ≡ c.details)
          × (r.details ≡ record c.details {
            passport_number = written_optional old.passport_number c.passport_number;
          })
          × (r.versioned ≡ s.versioned)
          × SavedRow c.versioned s.versioned
          × CustomerWritten db db' r
    pub update_customer_lem :
        (id : Text) (d : Deletion) (old : Customer) (db db' : Db)
        → customer_at db id ≡ some old
        → update_customer id d db ≡ (ok tt, db')
        → (r : Customer) × (r.id ≡ id)
          × (r.details ≡ old.details)
          × DeletedRow d old.versioned r.versioned
          × CustomerWritten db db' r
    pub insert_order_lem :
        (hook : Hook) (d : OrderData) (db db' : Db) (s : Order)
        → insert_order hook d db ≡ (ok s, db')
        → SameOrder d s.details
          × InsertedRow hook s.versioned
          × (order_at db s.id ≡ none)
          × OrderWritten db db' s
    pub save_order_lem :
        (hook : Hook) (o old : Order) (db db' : Db) (s : Order)
        → order_at db o.id ≡ some old
        → old.customer ≡ o.customer
        → save_order hook o db ≡ (ok s, db')
        → (s.id ≡ o.id)
          × SameOrder o.details s.details
          × SavedRow o.versioned s.versioned
          × OrderWritten db db' s
    pub update_order_lem :
        (id : Text) (d : Deletion) (old : Order) (db db' : Db)
        → order_at db id ≡ some old
        → update_order id d db ≡ (ok tt, db')
        → (r : Order) × (r.id ≡ id)
          × (r.details ≡ old.details)
          × DeletedRow d old.versioned r.versioned
          × OrderWritten db db' r
    -- A write that fails has written nothing.
    pub insert_customer_err :
        (hook : Hook) (d : CustomerData) (db db' : Db) (e : Exception)
        → insert_customer hook d db ≡ (err e, db')
        → db' ≡ db
    pub save_customer_err :
        (hook : Hook) (c : Customer) (db db' : Db) (e : Exception)
        → save_customer hook c db ≡ (err e, db')
        → db' ≡ db
    pub update_customer_err :
        (id : Text) (d : Deletion) (db db' : Db) (e : Exception)
        → update_customer id d db ≡ (err e, db')
        → db' ≡ db
    pub insert_order_err :
        (hook : Hook) (d : OrderData) (db db' : Db) (e : Exception)
        → insert_order hook d db ≡ (err e, db')
        → db' ≡ db
    pub save_order_err :
        (hook : Hook) (o : Order) (db db' : Db) (e : Exception)
        → save_order hook o db ≡ (err e, db')
        → db' ≡ db
    pub update_order_err :
        (id : Text) (d : Deletion) (db db' : Db) (e : Exception)
        → update_order id d db ≡ (err e, db')
        → db' ≡ db
    -- A transaction whose callback throws is rolled back and throws the same; one that succeeds
    -- has done what the callback did.
    pub transaction_ok :
        {A : Type 0} (m : Action Db A) (db db' : Db) (a : A)
        → transaction m db ≡ (ok a, db')
        → m db ≡ (ok a, db')
    pub transaction_err :
        {A : Type 0} (m : Action Db A) (db db' : Db) (e : Exception)
        → transaction m db ≡ (err e, db')
        → db' ≡ db
    pub transaction_throws :
        {A : Type 0} (m : Action Db A) (db db' : Db) (e : Exception)
        → m db ≡ (err e, db')
        → transaction m db ≡ (err e, db)
    -- Whether a transaction commits depends on what its callback did.
    pub transaction_same :
        {A : Type 0} (m k : Action Db A) (db : Db)
        → m db ≡ k db
        → transaction m db ≡ transaction k db
