-- ===== src/Examples/CustomerWrites.antt =====
-- Writes of a customer row in memory.
use nest_order_api.Common.{
  Text, ◌≡◌, refl, ◌≢◌, none, some, text_eq, Bool-cases, Option-cases, inl, inr,
}
use nest_order_api.Customer.Entity.{Customer, CustomerData}
use nest_order_api.Effects.{ok}
use nest_order_api.Examples.Memory as M
use nest_order_api.Examples.Memory.{
  Memory, memory_orm, customer_key, order_key, customer_row, order_row, blank, assign, put_customer,
  put_order, new_stamps, saved_stamps, deleted_stamps, saved_customer, stored_customer, saved_order,
}
use nest_order_api.Examples.Rows.{lookup-cons_self, lookup-cons_ne, lookup-map}
use nest_order_api.Order.Entity.{Order}
use nest_order_api.Orm.{Hook, Deletion}
use nest_order_api.Orm.Laws.{
  refresh, CustomerWritten, InsertedRow, SavedRow, DeletedRow, written_optional,
}
use nest_order_api.Values.{cleared}
use nest_order_api.Examples.Outcomes.{ok_inj, err_ok}

refresh-id : (c : Customer) (o : Order) → (refresh c o).id ≡ o.id
refresh-id c o = elim (Bool-cases (text_eq o.customer.id c.id)) [
  | inl t ↦ rw t refl
  | inr f ↦ rw f refl
]

put_customer_lem :
    (r : Customer) (db : Memory) → CustomerWritten memory_orm db (put_customer r db) r
put_customer_lem r db = record {
  row = lookup-cons_self customer_key r db.customers;
  others = λ j n. lookup-cons_ne customer_key j r db.customers n;
  orders = λ j. lookup-map order_key (refresh r) (refresh-id r) j db.orders;
}

pub save_customer_lem :
    (hook : Hook) (c old : Customer) (db db' : Memory) (s : Customer)
    → customer_row db c.id ≡ some old
    → M.save_customer hook c db ≡ (ok s, db')
    → (r : Customer) × (s.id ≡ c.id)
      × (r.id ≡ c.id)
      × (s.details ≡ c.details)
      × (r.details ≡ record c.details {
        passport_number = written_optional old.passport_number c.passport_number;
      })
      × (r.versioned ≡ s.versioned)
      × SavedRow c.versioned s.versioned
      × CustomerWritten memory_orm db db' r
save_customer_lem hook c old db db' s at h =
    let (e, f) = ok_inj (rw (at, M.save_customer) at h) in
    rw (← e, ← f)
      (
        stored_customer hook old c,
        refl,
        refl,
        refl,
        refl,
        refl,
        record { created_by = refl; deleted_at = refl },
        put_customer_lem (stored_customer hook old c) db,
      )

pub update_customer_lem :
    (id : Text) (d : Deletion) (old : Customer) (db db' : Memory)
    → customer_row db id ≡ some old
    → M.update_customer id d db ≡ (ok tt, db')
    → (r : Customer) × (r.id ≡ id)
      × (r.details ≡ old.details)
      × DeletedRow d old.versioned r.versioned
      × CustomerWritten memory_orm db db' r
update_customer_lem id d old db db' at h =
    let (e, f) = ok_inj (rw (at, M.update_customer) at h) in
    let r : Customer = record old { id = id; versioned = deleted_stamps d old.versioned } in
    rw (← f) (
      r,
      refl,
      refl,
      record { created_by = refl; deleted_at = refl; deleted_by = refl },
      put_customer_lem r db,
    )

pub insert_customer_lem :
    (hook : Hook) (d : CustomerData) (db db' : Memory) (s : Customer)
    → M.insert_customer hook d db ≡ (ok s, db')
    → (r : Customer) × (r.id ≡ s.id)
      × (s.details ≡ d)
      × (r.details ≡ record d { passport_number = written_optional cleared d.passport_number })
      × (r.versioned ≡ s.versioned)
      × InsertedRow hook s.versioned
      × (customer_row db s.id ≡ none)
      × (customer_row db' s.id ≡ some r)
      × ((j : Text) → j ≢ s.id → customer_row db' j ≡ customer_row db j)
      × ((j : Text) → order_row db' j ≡ order_row db j)
insert_customer_lem hook d db db' s h = elim (Option-cases (customer_row db db.next)) [
  | inr (r, at) ↦ err_ok (rw (at, M.insert_customer) at h)
  | inl at ↦
      let r : Customer = record {
        id = db.next;
        details = record d { passport_number = written_optional cleared d.passport_number };
        versioned = new_stamps hook;
      } in
      let (e, f) = ok_inj (rw (at, M.insert_customer) at h) in
      rw (← e, ← f)
        (
          r,
          refl,
          refl,
          refl,
          refl,
          record { blank = blank; created_by = refl; active = refl },
          at,
          lookup-cons_self customer_key r db.customers,
          λ j n. lookup-cons_ne customer_key j r db.customers n,
          λ j. refl,
        )
]
