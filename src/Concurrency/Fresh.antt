-- ===== src/Concurrency/Fresh.antt =====
-- What a transaction has read under its lock is still so when it writes.
use nest_order_api.Common.{Text, ◌≡◌, refl, sym, ◌∙◌, ◌≢◌, ap, subst, false, some, inl, inr}
use nest_order_api.Concurrency.{Pc, inserting, checking, updating, Lock, held}
use nest_order_api.Concurrency.Moves.{
  Move, refused, shared, owned, inserted, occupied, unoccupied, updated, rested,
}
use nest_order_api.Concurrency.Writes.{
  unlocked_customer, inserted_order, removed_customer, inserted_elsewhere, refreshed_elsewhere,
}
use nest_order_api.Customer.Entity.{Customer}
use nest_order_api.Customer.Service.{is_order_of}
use nest_order_api.Money.{Decimal}
use nest_order_api.Orm.{Orm, LockMode, pessimistic_read, pessimistic_write}
use nest_order_api.Order.Entity.{Order}
use nest_order_api.Orm.Laws.{OrmLaws, OrderWritten, CustomerWritten}

module _ (orm : Orm) where
  open orm use {Db, customer_at, lock_customer, order_exists}

  -- The locals of a transaction are what the database still holds.
  abbrev pub IsFresh : Db → Pc → Type 0
  IsFresh db (inserting store now dto c) =
      lock_customer pessimistic_read dto.customer_id db ≡ some c
  IsFresh db (checking store now id) =
      (c : Customer) × (lock_customer pessimistic_write id db ≡ some c)
  IsFresh db (updating store now id) =
      ((c : Customer) × (lock_customer pessimistic_write id db ≡ some c))
      × (order_exists (is_order_of id) db ≡ false)
  IsFresh db _ = Unit

  -- What a change of the database leaves alone, for a lock that another transaction holds.
  pub record Spares (db db' : Db) (lock : Lock) : Type 0 where
    pub row : customer_at db' lock.row ≡ customer_at db lock.row
    pub orders :
        lock.mode ≡ pessimistic_write
        → order_exists (is_order_of lock.row) db ≡ false
        → order_exists (is_order_of lock.row) db' ≡ false

  module _ (laws : OrmLaws orm) where
    relocked :
        {db db' : Db}
        → (mode : LockMode) (id : Text) → customer_at db' id ≡ customer_at db id
        → lock_customer mode id db' ≡ lock_customer mode id db
    relocked {db} {db'} mode id e =
        laws.lock_customer_lem mode id db' ∙ rw e (sym (laws.lock_customer_lem mode id db))

    pub Spares-IsFresh :
        {db db' : Db}
        → (q : Pc) → ((lock : Lock) → held q ≡ some lock → Spares db db' lock)
        → IsFresh db q
        → IsFresh db' q
    Spares-IsFresh (inserting store now dto c) spares fresh =
        relocked pessimistic_read dto.customer_id (spares _ refl).row ∙ fresh
    Spares-IsFresh (checking store now id) spares (c, fresh) =
        (c, relocked pessimistic_write id (spares _ refl).row ∙ fresh)
    Spares-IsFresh (updating store now id) spares ((c, fresh), empty) = (
      (c, relocked pessimistic_write id (spares _ refl).row ∙ fresh),
      (spares _ refl).orders refl empty,
    )
    Spares-IsFresh _ spares fresh = tt

    Spares-refl : {db : Db} (lock : Lock) → Spares db db lock
    Spares-refl lock = record { row = refl; orders = λ _ empty. empty }

    -- The lock is not on a row that `a` owns, nor owns the row of `a`.
    pub record Clear (a lock : Lock) : Type 0 where
      pub outside : a.mode ≡ pessimistic_write → a.row ≢ lock.row
      pub around : lock.mode ≡ pessimistic_write → a.row ≢ lock.row

    inserted_Spares :
        {db db' : Db} (a lock : Lock) (c : Customer) (s : Order)
        → customer_at db a.row ≡ some c
        → s.customer ≡ c
        → OrderWritten orm db db' s
        → Clear a lock
        → Spares db db' lock
    inserted_Spares {db} {db'} a lock c s at mine w clear = record {
      row = w.customers lock.row;
      orders = λ write.
          inserted_elsewhere orm laws lock.row db db' s
            (λ e.
              clear.around write
                (sym (laws.customer_key db a.row c at) ∙ ap (λ k. k.id) (sym mine) ∙ e))
            w;
    }

    removed_Spares :
        {db db' : Db} (a lock : Lock) (r : Customer)
        → r.id ≡ a.row
        → a.mode ≡ pessimistic_write
        → CustomerWritten orm db db' r
        → Clear a lock
        → Spares db db' lock
    removed_Spares {db} {db'} a lock r key write w clear = record {
      row = w.others lock.row (λ e. clear.outside write (sym key ∙ sym e));
      orders = λ _. refreshed_elsewhere orm laws lock.row db db' r w;
    }

    module _ (dec : Decimal) where
      -- What the transaction that moves has read is so after its statement, too.
      pub Move-IsFresh :
          {db db' : Db} {p p' : Pc} → Move dec orm db p p' db' → IsFresh db p → IsFresh db' p'
      Move-IsFresh (refused _) fresh = tt
      Move-IsFresh (shared e) fresh = e
      Move-IsFresh (owned {c} e) fresh = (c, e)
      Move-IsFresh (inserted _) fresh = tt
      Move-IsFresh (occupied _) fresh = tt
      Move-IsFresh (unoccupied e) fresh = (fresh, e)
      Move-IsFresh (updated _) fresh = tt
      Move-IsFresh rested fresh = tt

      pub Move-Spares :
          {db db' : Db} {p p' : Pc}
          → Move dec orm db p p' db'
          → IsFresh db p
          → (lock : Lock) → ((a : Lock) → held p ≡ some a → Clear a lock)
          → Spares db db' lock
      Move-Spares {db} {db'} (inserted {store} {dto} {c} {r} h) fresh lock clear =
          elim (inserted_order orm laws dec store dto c db db' r h) [
            | inl e ↦ subst (λ d. Spares db d lock) (sym e) (Spares-refl lock)
            | inr (s, mine, w) ↦
                inserted_Spares _ lock c s
                  (unlocked_customer orm laws pessimistic_read dto.customer_id db c fresh).0 mine w
                  (clear _ refl)
          ]
      Move-Spares {db} {db'} (updated {store} {now} {id} {r} h) ((c, fresh), empty) lock clear =
          elim (removed_customer orm laws store now id c db db' r
            (unlocked_customer orm laws pessimistic_write id db c fresh).0 h) [
              | inl e ↦ subst (λ d. Spares db d lock) (sym e) (Spares-refl lock)
              | inr (s, key, _, _, w) ↦ removed_Spares _ lock s key refl w (clear _ refl)
            ]
      Move-Spares (refused _) fresh lock clear = Spares-refl lock
      Move-Spares (shared _) fresh lock clear = Spares-refl lock
      Move-Spares (owned _) fresh lock clear = Spares-refl lock
      Move-Spares (occupied _) fresh lock clear = Spares-refl lock
      Move-Spares (unoccupied _) fresh lock clear = Spares-refl lock
      Move-Spares rested fresh lock clear = Spares-refl lock
