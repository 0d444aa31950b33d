-- ===== src/Examples/ConcurrencyWitnesses.antt =====
-- Bob creates an order of a customer that root deletes at the same time.
use native.Mathlib.Decide.{ℕ_discrete}
use nest_order_api.Common.{
  ℕ, zero, suc, text_eq, ◌<◌, ◌≡◌, refl, lit, Bool, true, false, [], ◌∷◌, none, some, arith,
}
use nest_order_api.Audit.{intercept}
use nest_order_api.Concurrency.{
  Job, creating, deleting, waiting, LockTable, granted, asked, job_of, begin, advance, done,
  deleted, System, turn, Reach, start, later, pick,
}
use nest_order_api.Concurrency.Finish.{Reach-ends, Turns}
use nest_order_api.Concurrency.References.{Reach-RefersActive}
use nest_order_api.Concurrency.Serial.{Serves, Reach-Serves}
use nest_order_api.Customer.Service.{has_orders}
use nest_order_api.Effects.{err}
use nest_order_api.Examples.Data as Data
use nest_order_api.Examples.Memory.{Memory, memory_orm, exact_decimal}
use nest_order_api.Examples.MemoryLaws.{memory_laws}
use nest_order_api.Order.Guards.{new_order_data}
use nest_order_api.Order.Service.Consistent.{Every, RefersActive}
use nest_order_api.Orm.{LockMode, pessimistic_read, pessimistic_write}

abbrev conflict : LockMode → LockMode → Bool
conflict pessimistic_read pessimistic_read = false
conflict _ _ = true

abbrev row_locks : LockTable
row_locks = record {
  conflicts = conflict;
  conflicts_comm = conflict_comm;
  write-conflicts = write_conflict;
}
  where
    conflict_comm : (a b : LockMode) → conflict a b ≡ conflict b a
    conflict_comm pessimistic_read pessimistic_read = refl
    conflict_comm pessimistic_read pessimistic_write = refl
    conflict_comm pessimistic_write pessimistic_read = refl
    conflict_comm pessimistic_write pessimistic_write = refl

    write_conflict : (a : LockMode) → conflict pessimistic_write a ≡ true
    write_conflict pessimistic_read = refl
    write_conflict pessimistic_write = refl

abbrev no_orders : Memory
no_orders = record Data.start.db { orders = [] }

abbrev jobs : ℕ → Job
jobs zero =
    creating (intercept (some Data.bob)) 5
      (record { customer_id = lit "c1"; items = Data.ink ∷ [] })
jobs (suc n) = deleting (intercept (some Data.root)) 6 (lit "c1")

abbrev first : System exact_decimal memory_orm
first = record { db = no_orders; pc = λ i. waiting (jobs i) }

-- Bob holds the row, and root waits for it.
abbrev shared_row : System exact_decimal memory_orm
shared_row = turn exact_decimal memory_orm first 0

shared_row-Reach : Reach exact_decimal memory_orm row_locks 2 jobs no_orders shared_row
unfolding granted
shared_row-Reach = later start (pick 0 (omega arith) refl)

root_waits : granted row_locks 2 shared_row.pc (asked (shared_row.pc 1)) ≡ false
unfolding granted ℕ_discrete advance begin text_eq
root_waits = refl

abbrev inserted : System exact_decimal memory_orm
inserted = turn exact_decimal memory_orm shared_row 0

inserted-Reach : Reach exact_decimal memory_orm row_locks 2 jobs no_orders inserted
unfolding granted ℕ_discrete advance begin text_eq
inserted-Reach = later shared_row-Reach (pick 0 (omega arith) refl)

abbrev refused : System exact_decimal memory_orm
refused = turn exact_decimal memory_orm (turn exact_decimal memory_orm inserted 1) 1

refused-Reach : Reach exact_decimal memory_orm row_locks 2 jobs no_orders refused
unfolding granted ℕ_discrete advance begin text_eq
refused-Reach = later (later inserted-Reach (pick 1 (omega arith) refl)) (pick 1 (omega arith) refl)

-- The order came first, so root cannot delete the customer.
root_refused : refused.pc 1 ≡ done (deleted (err (has_orders (lit "c1"))))
unfolding ℕ_discrete advance begin text_eq new_order_data
root_refused = refl

no_orders-RefersActive : Every memory_orm RefersActive no_orders
no_orders-RefersActive id o at = cc

Reach-RefersActive_example : Every memory_orm RefersActive refused.db
Reach-RefersActive_example =
    Reach-RefersActive exact_decimal memory_orm memory_laws row_locks 2 jobs no_orders refused
      no_orders-RefersActive refused-Reach

Reach-Serves_example :
    Serves exact_decimal memory_orm
      (job_of (shared_row.pc 0))
      shared_row.db
      (advance exact_decimal memory_orm (shared_row.pc 0) shared_row.db).0
      (advance exact_decimal memory_orm (shared_row.pc 0) shared_row.db).1
Reach-Serves_example =
    Reach-Serves exact_decimal memory_orm memory_laws row_locks 2 jobs no_orders shared_row
      shared_row-Reach 0 (omega arith)

Reach-ends_example :
    (t : System exact_decimal memory_orm) × Turns exact_decimal memory_orm row_locks 2 jobs
      no_orders shared_row t
    × Reach exact_decimal memory_orm row_locks 2 jobs no_orders t
    × ((i : ℕ) → i < 2 → job_of (t.pc i) ≡ none)
Reach-ends_example =
    Reach-ends exact_decimal memory_orm row_locks 2 jobs no_orders shared_row shared_row-Reach
