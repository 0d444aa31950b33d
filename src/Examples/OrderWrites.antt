-- ===== src/Examples/OrderWrites.antt =====
-- Writes of an order row in memory.
use nest_order_api.Common.{Text, ◌≡◌, refl, ◌∷◌, none, some, Option-cases, inl, inr, List, []}
use nest_order_api.Effects.{ok}
use nest_order_api.Examples.Memory as M
use nest_order_api.Examples.Memory.{
  Memory, memory_orm, customer_key, order_key, customer_row, order_row, blank, assign, put_customer,
  put_order, new_stamps, saved_stamps, deleted_stamps, saved_customer, stored_customer, saved_order,
}
use nest_order_api.Examples.Rows.{lookup-cons_self, lookup-cons_ne}
use nest_order_api.Order.Entity.{Item, Order, OrderData, lines}
use nest_order_api.Orm.{Hook, Deletion}
use nest_order_api.Orm.Laws.{OrderWritten, InsertedRow, SameOrder, SavedRow, DeletedRow}
use nest_order_api.Examples.Outcomes.{ok_inj, err_ok}

lines-assign : (items : List Item) → lines (assign items) ≡ lines items
lines-assign [] = refl
lines-assign (it ∷ items) = rw (lines-assign items) refl

put_order_lem : (r : Order) (db : Memory) → OrderWritten memory_orm db (put_order r db) r
put_order_lem r db = record {
  row = lookup-cons_self order_key r db.orders;
  others = λ j n. lookup-cons_ne order_key j r db.orders n;
  customers = λ j. refl;
}

pub save_order_lem :
    (hook : Hook) (o old : Order) (db db' : Memory) (s : Order)
    → order_row db o.id ≡ some old
    → M.save_order hook o db ≡ (ok s, db')
    → (s.id ≡ o.id)
      × SameOrder o.details s.details
      × SavedRow o.versioned s.versioned
      × OrderWritten memory_orm db db' s
save_order_lem hook o old db db' s at h =
    let (e, f) = ok_inj (rw (at, M.save_order) at h) in
    rw (← e, ← f)
      (
        refl,
        record { customer = refl; same_lines = lines-assign o.items; total = refl; status = refl },
        record { created_by = refl; deleted_at = refl },
        put_order_lem (saved_order hook o) db,
      )

pub update_order_lem :
    (id : Text) (d : Deletion) (old : Order) (db db' : Memory)
    → order_row db id ≡ some old
    → M.update_order id d db ≡ (ok tt, db')
    → (r : Order) × (r.id ≡ id)
      × (r.details ≡ old.details)
      × DeletedRow d old.versioned r.versioned
      × OrderWritten memory_orm db db' r
update_order_lem id d old db db' at h =
    let (e, f) = ok_inj (rw (at, M.update_order) at h) in
    let r : Order = record old { id = id; versioned = deleted_stamps d old.versioned } in
    rw (← f) (
      r,
      refl,
      refl,
      record { created_by = refl; deleted_at = refl; deleted_by = refl },
      put_order_lem r db,
    )

pub insert_order_lem :
    (hook : Hook) (d : OrderData) (db db' : Memory) (s : Order)
    → M.insert_order hook d db ≡ (ok s, db')
    → SameOrder d s.details
      × InsertedRow hook s.versioned
      × (order_row db s.id ≡ none)
      × OrderWritten memory_orm db db' s
insert_order_lem hook d db db' s h = elim (Option-cases (order_row db db.next)) [
  | inr (r, at) ↦ err_ok (rw (at, M.insert_order) at h)
  | inl at ↦
      let n : Order = record {
        id = db.next;
        details = record d { items = assign d.items };
        versioned = new_stamps hook;
      } in
      let (e, f) = ok_inj (rw (at, M.insert_order) at h) in
      rw (← e, ← f)
        (
          record {
            customer = refl;
            same_lines = lines-assign d.items;
            total = refl;
            status = refl;
          },
          record { blank = blank; created_by = refl; active = refl },
          at,
          record {
            row = lookup-cons_self order_key n db.orders;
            others = λ j n'. lookup-cons_ne order_key j n db.orders n';
            customers = λ j. refl;
          },
        )
]
