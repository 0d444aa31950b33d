-- ===== src/Examples/Memory.antt =====
-- An exact decimal, and the ORM over rows in memory.
use nest_order_api.Common.{
  ℕ, suc, ◌+◌, ◌*◌, ◌≡◌, refl, Text, lit, List, [], ◌∷◌, map, Option, none, some, or_else, ap,
}
use nest_order_api.Errors.{query_failed, other}
use nest_order_api.Audit.{Audit, Versioned}
use nest_order_api.Customer.Entity.{CustomerData, Customer}
use nest_order_api.Effects.{Result, ok, err, Action}
use nest_order_api.Examples.Rows.{lookup, exists_in}
use nest_order_api.Money.{Decimal, print_cents, cents_of}
use nest_order_api.Money.Print.{cents_of-print_cents}
use nest_order_api.Order.Entity.{Item, OrderData, Order}
use nest_order_api.Orm.{Orm, Hook, Deletion, active_customer, active_order}
use nest_order_api.Orm.Laws.{written_optional, refresh}
use nest_order_api.Values.{cleared}

abbrev pub exact_decimal : Decimal
exact_decimal = record {
  Num = ℕ;
  Denotes = λ a c. a ≡ c;
  of_text = cents_of;
  nought = 0;
  plus = λ a b. a + b;
  times = λ a q. a * q;
  to_fixed = print_cents;
  of_text-Denotes = cents_of-print_cents;
  nought-Denotes = refl;
  plus-Denotes = λ a b m n p q _. rw (p, q) refl;
  times-Denotes = λ a m q p _. rw p refl;
  to_fixed-Denotes = λ a m p. ap print_cents p;
}

-- The next generated key is `next`.
pub record Memory : Type 0 where
  pub customers : List Customer
  pub orders : List Order
  pub next : Text

abbrev pub customer_key : Customer → Text
customer_key c = c.id

abbrev pub order_key : Order → Text
order_key o = o.id

abbrev pub customer_row : Memory → Text → Option Customer
customer_row db id = lookup customer_key id db.customers

abbrev pub order_row : Memory → Text → Option Order
order_row db id = lookup order_key id db.orders

abbrev pub blank : Audit
blank = record {
  created_at = 0;
  updated_at = 0;
  created_by = [];
  updated_by = [];
  deleted_at = none;
  deleted_by = none;
}

abbrev pub new_stamps : Hook → Versioned
new_stamps hook = record {
  audit = record blank { created_by = (hook blank).created_by };
  version = 1;
}

abbrev pub saved_stamps : Hook → Versioned → Versioned
saved_stamps hook v = record {
  audit = record v.audit { updated_by = (hook v.audit).updated_by };
  version = suc v.version;
}

abbrev pub deleted_stamps : Deletion → Versioned → Versioned
deleted_stamps d v = record {
  audit = record v.audit { deleted_at = some d.deleted_at; deleted_by = some d.deleted_by };
  version = suc v.version;
}

-- Items without a key are given one.
abbrev pub assign : List Item → List Item
assign [] = []
assign (it ∷ items) = record it { id = some (or_else it.id it.description) } ∷ assign items

abbrev pub put_customer : Customer → Memory → Memory
put_customer c db = record db { customers = c ∷ db.customers; orders = map (refresh c) db.orders }

abbrev pub put_order : Order → Memory → Memory
put_order o db = record db { orders = o ∷ db.orders }

abbrev pub duplicate : {A : Type 0} → Result A
duplicate = err (
    query_failed
      (record { kind = none; status = none; status_code = none; code = some (lit "23505") }))

abbrev pub missing : {A : Type 0} → Result A
missing = err (other (record { kind = none; status = none; status_code = none; code = none }))

abbrev pub insert_customer : Hook → CustomerData → Action Memory Customer
insert_customer hook d db = elim (customer_row db db.next) [
  | some _ ↦ (duplicate, db)
  | none ↦
      let s : Customer = record { id = db.next; details = d; versioned = new_stamps hook } in
      let stored = record d { passport_number = written_optional cleared d.passport_number } in
      (
        ok s,
        record db { customers = record s { details = stored } ∷ db.customers; next = 1 ∷ db.next },
      )
]

abbrev pub saved_customer : Hook → Customer → Customer
saved_customer hook c = record c { versioned = saved_stamps hook c.versioned }

abbrev pub stored_customer : Hook → Customer → Customer → Customer
stored_customer hook old c = record (saved_customer hook c) {
  details = record c.details {
    passport_number = written_optional old.passport_number c.passport_number;
  };
}

abbrev pub save_customer : Hook → Customer → Action Memory Customer
save_customer hook c db = elim (customer_row db c.id) [
  | none ↦ (missing, db)
  | some old ↦ (ok (saved_customer hook c), put_customer (stored_customer hook old c) db)
]

abbrev pub update_customer : Text → Deletion → Action Memory (Unit {0})
update_customer id d db = elim (customer_row db id) [
  | none ↦ (ok tt, db)
  | some old ↦
      (ok tt, put_customer (record old { id = id; versioned = deleted_stamps d old.versioned }) db)
]

abbrev pub insert_order : Hook → OrderData → Action Memory Order
insert_order hook d db = elim (order_row db db.next) [
  | some _ ↦ (duplicate, db)
  | none ↦
      let s : Order = record {
        id = db.next;
        details = record d { items = assign d.items };
        versioned = new_stamps hook;
      } in
      (ok s, record db { orders = s ∷ db.orders; next = 1 ∷ db.next })
]

abbrev pub saved_order : Hook → Order → Order
saved_order hook o = record o {
  details = record o.details { items = assign o.items };
  versioned = saved_stamps hook o.versioned;
}

abbrev pub save_order : Hook → Order → Action Memory Order
save_order hook o db = elim (order_row db o.id) [
  | none ↦ (missing, db)
  | some old ↦ (ok (saved_order hook o), put_order (saved_order hook o) db)
]

abbrev pub update_order : Text → Deletion → Action Memory (Unit {0})
update_order id d db = elim (order_row db id) [
  | none ↦ (ok tt, db)
  | some old ↦
      (ok tt, put_order (record old { id = id; versioned = deleted_stamps d old.versioned }) db)
]

abbrev pub transaction : {A : Type 0} → Action Memory A → Action Memory A
transaction m db = let (r, db') = m db in elim r [ ok a ↦ (ok a, db') | err e ↦ (err e, db) ]

abbrev pub memory_orm : Orm
memory_orm = record {
  Db = Memory;
  customer_at = customer_row;
  order_at = order_row;
  find_customer = λ id db. active_customer (customer_row db id);
  find_order = λ id db. active_order (order_row db id);
  lock_customer = λ mode id db. active_customer (customer_row db id);
  customer_exists = λ p db. exists_in customer_key p db.customers db.customers;
  order_exists = λ p db. exists_in order_key p db.orders db.orders;
  insert_customer = insert_customer;
  save_customer = save_customer;
  update_customer = update_customer;
  insert_order = insert_order;
  save_order = save_order;
  update_order = update_order;
  transaction = transaction;
}
