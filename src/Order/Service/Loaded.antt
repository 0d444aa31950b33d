-- ===== src/Order/Service/Loaded.antt =====
-- What a method of the service holds after it found its order, and what a save of it does.
use nest_order_api.Common.{
  ℕ, Text, lit, ◌≡◌, refl, sym, subst, ◌≢◌, ◌==◌, true, false, List, [], ◌∷◌, length, Option, none,
  some, arith, inl, inr, Option-cases,
}
use nest_order_api.Errors.{resource_not_found_order}
use nest_order_api.Audit.{Audit, Store, current_username, before_insert}
use nest_order_api.Effects.{Result, ok, ◌>>=◌, ◌>>◌, pure, Outcome-cases}
use nest_order_api.Money.{Decimal}
use nest_order_api.Order.Status.{OrderStatus, opened, confirmed}
use nest_order_api.Order.Status.Reach.{Step}
use nest_order_api.Order.Entity.{Item, OrderData, Order, is_editable}
use nest_order_api.Order.Event.{World}
use nest_order_api.Order.Guards.{insert_hook, update_hook, with_status, with_total, can_access}
use nest_order_api.Orm.{Orm, active_order}
use nest_order_api.Orm.Laws.{OrmLaws, SameOrder, SavedRow, OrderWritten}
use nest_order_api.Crud.{or_not_found}
use nest_order_api.Order.Service
use nest_order_api.Order.Service.Effect.{Edit, Effect, same, edited, moved, Held}

-- What `findEntityByIdOrThrow` found.
pub found_order :
    (store : Store) (id : Text) (row : Option Order) (o : Order)
    → or_not_found (lit "Order") resource_not_found_order (can_access store) id (active_order row)
      ≡ ok o
    → (row ≡ some o) × (o.deleted_at ≡ none) × (can_access store o ≡ true)
found_order store id none o h = cc
found_order store id (some r) o h = elim (Option-cases r.deleted_at) [
  | inr (t, gone) ↦ absurd (cc (rw gone at h))
  | inl active ↦ ground arith
]

pub insert_hook-created_by :
    (store : Store) (a : Audit) → (insert_hook store a).created_by ≡ current_username store
unfolding before_insert
insert_hook-created_by store a = refl

pub length-ne-nil : {A : Type 0} (xs : List A) → (length xs == 0) ≡ false → xs ≢ []
length-ne-nil [] h e = cc
length-ne-nil (x ∷ xs) h e = cc

module _ (dec : Decimal) (orm : Orm) (laws : OrmLaws orm) (store : Store) (now : ℕ) where
  open orm use {Db, order_at, find_order, save_order}

  abbrev pub found : Text → Db → Result Order
  found id db =
      or_not_found (lit "Order") resource_not_found_order (can_access store) id (find_order id db)

  -- The row behind what was found.
  pub record Loaded (db : Db) (o : Order) : Type 0 where
    pub at : order_at db o.id ≡ some o
    pub active : o.deleted_at ≡ none
    pub accessible : can_access store o ≡ true

  pub found-Loaded : (db : Db) (id : Text) (o : Order) → found id db ≡ ok o → Loaded db o
  found-Loaded db id o h =
      let (at, active, accessible) =
        found_order store id (order_at db id) o (rw (laws.find_order_lem id db) at h) in
      record {
        at = subst (λ k. order_at db k ≡ some o) (sym (laws.order_key db id o at)) at;
        active = active;
        accessible = accessible;
      }

  pub found-at : (db : Db) (id : Text) (o : Order) → found id db ≡ ok o → order_at db id ≡ some o
  found-at db id o h =
      (found_order store id (order_at db id) o (rw (laws.find_order_lem id db) at h)).0

  pub held : (db : Db) (o s : Order) → s.id ≡ o.id → Loaded db o → Held dec orm store db o s
  held db o s key l = record { was = rw key l.at; active = l.active; accessible = l.accessible }

  -- A save that failed wrote nothing; one that returned wrote the order that it was given.
  module _ (P : Db → Type 0) (o : Order) (w : World Db) where
    abbrev pub AfterSave : Order → Type 0
    AfterSave x =
        (s : Order) (db' : Db)
        → s.id ≡ o.id
        → SameOrder x.details s.details
        → SavedRow o.versioned s.versioned
        → OrderWritten orm w.db db' s
        → P db'

    pub save_edited_rule :
        (items : List Item)
        → Loaded w.db o
        → P w.db
        → AfterSave (with_total dec o items)
        → P (Service.save_and_respond dec orm store now (with_total dec o items) w).1.db
    unfolding Service.save_and_respond with_total
    save_edited_rule items l stay next =
        let x = with_total dec o items in
        let hook = update_hook store in
        elim (Outcome-cases (save_order hook x w.db)) [
          | inl (t, db', h) ↦
              rw (h, ◌>>=◌) (rw h (subst P (sym (laws.save_order_err hook x w.db db' t h)) stay))
          | inr (s, db', h) ↦
              let (key, content, row, written) =
                laws.save_order_lem hook x o w.db db' s l.at refl h in
              rw (h, ◌>>=◌) (rw h (next s db' key content row written))
        ]

    notify-db :
        (a b : OrderStatus) (s : Order) (r : Service.OrderResponse) (v : World Db)
        → ((Service.notify dec orm store now a b s >> pure r) v).1.db ≡ v.db
    unfolding Service.notify
    notify-db a b s r v = ground arith

    pub change_status_rule :
        (target : OrderStatus)
        → Loaded w.db o
        → P w.db
        → AfterSave (with_status o target)
        → P (Service.change_status dec orm store now o target w).1.db
    unfolding Service.change_status
    change_status_rule target l stay next =
        let x = with_status o target in
        let hook = update_hook store in
        elim (Outcome-cases (save_order hook x w.db)) [
          | inl (t, db', h) ↦
              rw (h, ◌>>=◌) (rw h (subst P (sym (laws.save_order_err hook x w.db db' t h)) stay))
          | inr (s, db', h) ↦
              let (key, content, row, written) =
                laws.save_order_lem hook x o w.db db' s l.at refl h in
              rw (h, ◌>>=◌)
                (subst P (sym (notify-db o.status target s (Service.order_response dec s) _))
                  (rw h (next s db' key content row written)))
        ]

  pub save_edited :
      (o : Order) (items : List Item) (w : World Db)
      → Loaded w.db o
      → o.status ≡ opened
      → Edit o.items items
      → Effect dec orm store w.db
          (Service.save_and_respond dec orm store now (with_total dec o items) w).1.db
  save_edited o items w l open_status e =
      save_edited_rule (Effect dec orm store w.db) o w items l (same refl)
        (λ s db' key content row written.
          edited o s items (held w.db o s key l) open_status e content row written)

  pub change_moved :
      (o : Order) (target : OrderStatus) (w : World Db)
      → Loaded w.db o
      → Step o.status target
      → (target ≡ confirmed → o.items ≢ [])
      → Effect dec orm store w.db (Service.change_status dec orm store now o target w).1.db
  change_moved o target w l step filled =
      change_status_rule (Effect dec orm store w.db) o w target l (same refl)
        (λ s db' key content row written.
          moved o s target (held w.db o s key l) step filled content row written)

  pub editable_opened : (o : OrderData) → is_editable o ≡ true → o.status ≡ opened
  unfolding is_editable
  editable_opened o h = ground arith
