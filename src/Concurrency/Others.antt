-- ===== src/Concurrency/Others.antt =====
-- What the other requests leave alone.
use nest_order_api.Common.{Text, text_eq, ◌&&◌, ◌≡◌, arith, true, false, inl, inr, Option-cases}
use nest_order_api.Concurrency.{Lock, Elsewhere}
use nest_order_api.Concurrency.Fresh.{Spares}
use nest_order_api.Concurrency.Writes.{unoccupied_Every, Every-unoccupied}
use nest_order_api.Customer.Service.{is_order_of}
use nest_order_api.Money.{Decimal}
use nest_order_api.Orm.{Orm}
use nest_order_api.Orm.Laws.{OrmLaws}

module _ (dec : Decimal) (orm : Orm) (laws : OrmLaws orm) where
  open orm use {Db, order_exists}

  Elsewhere-unoccupied :
      (id : Text) (db db' : Db)
      → Elsewhere dec orm db db'
      → order_exists (is_order_of id) db ≡ false
      → order_exists (is_order_of id) db' ≡ false
  Elsewhere-unoccupied id db db' h empty = Every-unoccupied orm laws id db' (λ j o' at'.
      elim (Option-cases o'.deleted_at) [
        | inr (t, gone) ↦ rw gone (ground arith)
        | inl active ↦
            let (o, at, was, same) = h.orders j o' at' active in
            let free : is_order_of id o ≡ false = unoccupied_Every orm laws id db empty j o at in
            let free' : (text_eq o.customer.id id && true) ≡ false = rw was at free in
            rw (same, active) free'
      ])

  pub Elsewhere-Spares :
      {db db' : Db} → Elsewhere dec orm db db' → (lock : Lock) → Spares orm db db' lock
  Elsewhere-Spares {db} {db'} h lock = record {
    row = h.customers lock.row;
    orders = λ _. Elsewhere-unoccupied lock.row db db' h;
  }
