-- ===== src/Concurrency/References.antt =====
-- Orders and their customers while transactions overlap.
use nest_order_api.Common.{ℕ, sym, subst, inl, inr}
use nest_order_api.Concurrency.{
  Job, Pc, LockTable, System, Elsewhere, pick, elsewhere, Reach, start, later,
}
use nest_order_api.Concurrency.Fresh.{IsFresh}
use nest_order_api.Concurrency.Invariant.{Reach-Inv}
use nest_order_api.Concurrency.Moves.{
  deletion_of, Move, refused, shared, owned, inserted, occupied, unoccupied, updated, rested,
  advance-Move,
}
use nest_order_api.Concurrency.Writes.{unlocked_customer, inserted_order, removed_customer}
use nest_order_api.Customer.Service.Effect.{removed}
use nest_order_api.Customer.Service.References.{CustomerEffect-RefersActive}
use nest_order_api.Money.{Decimal}
use nest_order_api.Order.Service.Consistent.{Every, RefersActive, written_Every}
use nest_order_api.Orm.{Orm, pessimistic_read, pessimistic_write}
use nest_order_api.Orm.Laws.{OrmLaws}

module _ (dec : Decimal) (orm : Orm) (laws : OrmLaws orm) where
  open orm use {Db}

  Move-RefersActive :
      {db db' : Db} {p p' : Pc}
      → Move dec orm db p p' db'
      → IsFresh orm db p
      → Every orm RefersActive db
      → Every orm RefersActive db'
  Move-RefersActive {db} {db'} (inserted {store} {now} {dto} {c} {r} h) fresh good =
      let (at, active) = unlocked_customer orm laws pessimistic_read dto.customer_id db c fresh in
      elim (inserted_order orm laws dec store dto c db db' r h) [
        | inl e ↦ subst (Every orm RefersActive) (sym e) good
        | inr (s, mine, w) ↦ written_Every orm RefersActive w good (λ _. rw mine active)
      ]
  Move-RefersActive {db} {db'} (updated {store} {now} {id} {r} h) ((c, fresh), empty) good =
      let (at, active) = unlocked_customer orm laws pessimistic_write id db c fresh in
      elim (removed_customer orm laws store now id c db db' r at h) [
        | inl e ↦ subst (Every orm RefersActive) (sym e) good
        | inr (s, key, content, row, w) ↦
            CustomerEffect-RefersActive orm laws
              (removed (deletion_of store now) c s (rw key at) active (rw key empty) content row w)
              good
      ]
  Move-RefersActive (refused _) fresh good = good
  Move-RefersActive (shared _) fresh good = good
  Move-RefersActive (owned _) fresh good = good
  Move-RefersActive (occupied _) fresh good = good
  Move-RefersActive (unoccupied _) fresh good = good
  Move-RefersActive rested fresh good = good

  Elsewhere-RefersActive :
      {db db' : Db}
      → Elsewhere dec orm db db'
      → Every orm RefersActive db
      → Every orm RefersActive db'
  Elsewhere-RefersActive h good j o' at' active =
      let (o, at, was, same) = h.orders j o' at' active in rw same (good j o at was)

  -- Whatever the order in which the statements of overlapping creations of orders and deletions of
  -- customers run, no order that is not deleted belongs to a deleted customer at any moment, if
  -- that was so at the start.
  pub Reach-RefersActive :
      (locks : LockTable) (n : ℕ) (jobs : ℕ → Job) (db : Db) (s : System dec orm)
      → Every orm RefersActive db
      → Reach dec orm locks n jobs db s
      → Every orm RefersActive s.db
  Reach-RefersActive locks n jobs db _ good start = good
  Reach-RefersActive locks n jobs db _ good (later {s} r (pick i lt free)) =
      Move-RefersActive (advance-Move dec orm (s.pc i) s.db)
        ((Reach-Inv dec orm laws locks n r).fresh i lt)
        (Reach-RefersActive locks n jobs db s good r)
  Reach-RefersActive locks n jobs db _ good (later {s} r (elsewhere db' h)) =
      Elsewhere-RefersActive h (Reach-RefersActive locks n jobs db s good r)
