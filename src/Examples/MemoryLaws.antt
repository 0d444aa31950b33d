-- ===== src/Examples/MemoryLaws.antt =====
-- The ORM in memory behaves as documented.
use nest_order_api.Common.{Text, ◌≡◌, refl, sym, ap, ◌∙◌, Bool, false, some, Option-cases, inl, inr}
use nest_order_api.Customer.Entity.{Customer, CustomerData}
use nest_order_api.Effects.{Result, ok, err, Action, Outcome-cases}
use nest_order_api.Errors.{Exception}
use nest_order_api.Examples.Memory as M
use nest_order_api.Examples.Memory.{
  Memory, memory_orm, customer_key, order_key, customer_row, order_row, blank, assign, put_customer,
  put_order, new_stamps, saved_stamps, deleted_stamps, saved_customer, stored_customer, saved_order,
}
use nest_order_api.Examples.Rows.{lookup-key, exists_in-true, exists_in-false, holds}
use nest_order_api.Order.Entity.{Order, OrderData}
use nest_order_api.Orm.{Hook, Deletion}
use nest_order_api.Orm.Laws.{OrmLaws}
use nest_order_api.Examples.OrderWrites.{save_order_lem, update_order_lem, insert_order_lem}
use nest_order_api.Examples.CustomerWrites.{
  save_customer_lem, update_customer_lem, insert_customer_lem,
}
use nest_order_api.Examples.Outcomes.{ok_err, err_ok, err_same}

insert_customer_err :
    (hook : Hook) (d : CustomerData) (db db' : Memory) (e : Exception)
    → M.insert_customer hook d db ≡ (err e, db')
    → db' ≡ db
insert_customer_err hook d db db' e h = elim (Option-cases (customer_row db db.next)) [
  | inr (r, at) ↦ err_same (rw (at, M.insert_customer) at h)
  | inl at ↦ ok_err (rw (at, M.insert_customer) at h)
]

save_customer_err :
    (hook : Hook) (c : Customer) (db db' : Memory) (e : Exception)
    → M.save_customer hook c db ≡ (err e, db')
    → db' ≡ db
save_customer_err hook c db db' e h = elim (Option-cases (customer_row db c.id)) [
  | inr (r, at) ↦ ok_err (rw (at, M.save_customer) at h)
  | inl at ↦ err_same (rw (at, M.save_customer) at h)
]

update_customer_err :
    (id : Text) (d : Deletion) (db db' : Memory) (e : Exception)
    → M.update_customer id d db ≡ (err e, db')
    → db' ≡ db
update_customer_err id d db db' e h = elim (Option-cases (customer_row db id)) [
  | inr (r, at) ↦ ok_err (rw (at, M.update_customer) at h)
  | inl at ↦ ok_err (rw (at, M.update_customer) at h)
]

insert_order_err :
    (hook : Hook) (d : OrderData) (db db' : Memory) (e : Exception)
    → M.insert_order hook d db ≡ (err e, db')
    → db' ≡ db
insert_order_err hook d db db' e h = elim (Option-cases (order_row db db.next)) [
  | inr (r, at) ↦ err_same (rw (at, M.insert_order) at h)
  | inl at ↦ ok_err (rw (at, M.insert_order) at h)
]

save_order_err :
    (hook : Hook) (o : Order) (db db' : Memory) (e : Exception)
    → M.save_order hook o db ≡ (err e, db')
    → db' ≡ db
save_order_err hook o db db' e h = elim (Option-cases (order_row db o.id)) [
  | inr (r, at) ↦ ok_err (rw (at, M.save_order) at h)
  | inl at ↦ err_same (rw (at, M.save_order) at h)
]

update_order_err :
    (id : Text) (d : Deletion) (db db' : Memory) (e : Exception)
    → M.update_order id d db ≡ (err e, db')
    → db' ≡ db
update_order_err id d db db' e h = elim (Option-cases (order_row db id)) [
  | inr (r, at) ↦ ok_err (rw (at, M.update_order) at h)
  | inl at ↦ ok_err (rw (at, M.update_order) at h)
]

module _ {A : Type 0} (m : Action Memory A) (db db' : Memory) where
  transaction_ok : (a : A) → M.transaction m db ≡ (ok a, db') → m db ≡ (ok a, db')
  transaction_ok a h = elim (Outcome-cases (m db)) [
    | inl (e, s, run) ↦ err_ok (rw (run, M.transaction) at h)
    | inr (x, s, run) ↦
        let state : (◌≡◌ {A = Result A × Memory} (ok x, s) (ok x, (m db).1)) =
          ap (λ k. (ok x, k.1)) (sym run) in
        run ∙ state ∙ (rw (run, M.transaction) at h)
  ]

  transaction_err : (e : Exception) → M.transaction m db ≡ (err e, db') → db' ≡ db
  transaction_err e h = elim (Outcome-cases (m db)) [
    | inl (f, s, run) ↦ err_same (rw (run, M.transaction) at h)
    | inr (x, s, run) ↦ ok_err (rw (run, M.transaction) at h)
  ]

  transaction_throws : (e : Exception) → m db ≡ (err e, db') → M.transaction m db ≡ (err e, db)
  transaction_throws e run = rw (run, M.transaction) refl

transaction_same :
    {A : Type 0} (m k : Action Memory A) (db : Memory)
    → m db ≡ k db
    → M.transaction m db ≡ M.transaction k db
transaction_same m k db h = elim (Outcome-cases (k db)) [
  | inl (e, s, run) ↦ rw (h ∙ run, run, M.transaction) refl
  | inr (x, s, run) ↦ rw (h ∙ run, run, M.transaction) (ap (λ q. (ok x, q.1)) h)
]

holds_none :
    (p : Order → Bool) (db : Memory) (id : Text) (o : Order)
    → holds order_key p (order_row db id) ≡ false
    → order_row db id ≡ some o
    → p o ≡ false
holds_none p db id o h at = rw at at h

holds_customer :
    (p : Customer → Bool) (db : Memory) (id : Text) (o : Customer)
    → holds customer_key p (customer_row db id) ≡ false
    → customer_row db id ≡ some o
    → p o ≡ false
holds_customer p db id o h at = rw at at h

pub memory_laws : OrmLaws memory_orm
memory_laws = record {
  customer_key = λ db id c h. lookup-key customer_key id db.customers c h;
  order_key = λ db id o h. lookup-key order_key id db.orders o h;
  find_customer_lem = λ id db. refl;
  find_order_lem = λ id db. refl;
  lock_customer_lem = λ mode id db. refl;
  customer_exists_true = λ p db h. exists_in-true customer_key p db.customers db.customers h;
  customer_exists_false = λ p db id c h at.
      holds_customer p db id c (exists_in-false customer_key p db.customers db.customers id c h at)
        at;
  order_exists_true = λ p db h. exists_in-true order_key p db.orders db.orders h;
  order_exists_false = λ p db id o h at.
      holds_none p db id o (exists_in-false order_key p db.orders db.orders id o h at) at;
  insert_customer_lem = insert_customer_lem;
  save_customer_lem = save_customer_lem;
  update_customer_lem = update_customer_lem;
  insert_order_lem = insert_order_lem;
  save_order_lem = λ hook o old db db' s at same h. save_order_lem hook o old db db' s at h;
  update_order_lem = update_order_lem;
  insert_customer_err = insert_customer_err;
  save_customer_err = save_customer_err;
  update_customer_err = update_customer_err;
  insert_order_err = insert_order_err;
  save_order_err = save_order_err;
  update_order_err = update_order_err;
  transaction_ok = λ m db db' a h. transaction_ok m db db' a h;
  transaction_err = λ m db db' e h. transaction_err m db db' e h;
  transaction_throws = λ m db db' e h. transaction_throws m db db' e h;
  transaction_same = transaction_same;
}
