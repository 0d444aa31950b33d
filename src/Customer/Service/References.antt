-- ===== src/Customer/Service/References.antt =====
-- What a write of a customer does to the orders, which show their customer.
use mathlib.Core.Option
use nest_order_api.Common.{
  Text, ◌≡◌, refl, sym, ◌∙◌, subst, true, false, Option, none, some, text_eq, Bool-cases, inl, inr,
}
use nest_order_api.Customer.Entity.{Customer}
use nest_order_api.Customer.Service.{is_order_of}
use nest_order_api.Customer.Service.Effect.{CustomerEffect, same, added, changed, removed}
use nest_order_api.Order.Entity.{Order}
use nest_order_api.Order.Entity.Total.{IsConsistent}
use nest_order_api.Order.Service.Consistent.{Every, RefersActive}
use nest_order_api.Order.Service.History.{Evolves, Evolves-refl, Became}
use nest_order_api.Order.Status.Reach.{here}
use nest_order_api.Orm.{Orm}
use nest_order_api.Orm.Laws.{OrmLaws, refresh}

mapped_some :
    (f : Order → Order) (row : Option Order) (o' : Order)
    → Option.map f row ≡ some o'
    → (o : Order) × (row ≡ some o) × (o' ≡ f o)
mapped_some f none o' h = cc
mapped_some f (some o) o' h = (o, refl, cc)

-- The order shows another row of its customer, or is as it was.
refresh-cases :
    (P : Order → Type 0) (r : Customer) (o : Order)
    → (text_eq o.customer.id r.id ≡ true
        → P (record o { details = record o.details { customer = r } }))
    → (text_eq o.customer.id r.id ≡ false → P o)
    → P (refresh r o)
refresh-cases P r o shown other = elim (Bool-cases (text_eq o.customer.id r.id)) [
  | inl e ↦ rw e (shown e)
  | inr e ↦ rw e (other e)
]

refresh-IsConsistent :
    (r : Customer) (o : Order) → IsConsistent o.details → IsConsistent (refresh r o).details
refresh-IsConsistent r o c =
    refresh-cases (λ x. IsConsistent x.details) r o
      (λ _. record { priced = c.priced; few = c.few; exact = c.exact; filled = c.filled }) (λ _. c)

refresh-Evolves : (r : Customer) (o : Order) → Evolves o (refresh r o)
refresh-Evolves r o =
    refresh-cases (Evolves o) r o
      (λ _. record {
        status = here;
        owner = refl;
        frozen = λ _. (refl, refl);
        buried = λ _. (refl, refl, refl, refl);
      })
      (λ _. Evolves-refl o)

module _ (orm : Orm) where
  open orm use {Db, order_at}

  -- The rows of the orders are unread or refreshed.
  pub refreshed_Every :
      (P : Order → Type 0) (r : Customer) (db db' : Db)
      → ((j : Text) → order_at db' j ≡ Option.map (refresh r) (order_at db j))
      → ((id : Text) (o : Order) → order_at db id ≡ some o → P (refresh r o))
      → Every orm P db'
  refreshed_Every P r db db' shows h id o' at' =
      let (o, at, e) = mapped_some (refresh r) (order_at db id) o' (sym (shows id) ∙ at') in
      subst P (sym e) (h id o at)

  unread_Every :
      (P : Order → Type 0) (db db' : Db)
      → ((j : Text) → order_at db' j ≡ order_at db j)
      → Every orm P db
      → Every orm P db'
  unread_Every P db db' shows h id o at = h id o (sym (shows id) ∙ at)

  pub CustomerEffect-IsConsistent :
      {db db' : Db}
      → CustomerEffect orm db db'
      → Every orm (λ o. IsConsistent o.details) db
      → Every orm (λ o. IsConsistent o.details) db'
  CustomerEffect-IsConsistent (same e) h = subst (Every orm (λ o. IsConsistent o.details)) (sym e) h
  CustomerEffect-IsConsistent {db} {db'} (added _ _ _ _ _ _ _ _ orders) h =
      unread_Every (λ o. IsConsistent o.details) db db' orders h
  CustomerEffect-IsConsistent {db} {db'} (changed _ _ r _ _ _ _ _ _ w) h =
      refreshed_Every (λ o. IsConsistent o.details) r db db' w.orders
        (λ id o at. refresh-IsConsistent r o (h id o at))
  CustomerEffect-IsConsistent {db} {db'} (removed _ _ r _ _ _ _ _ w) h =
      refreshed_Every (λ o. IsConsistent o.details) r db db' w.orders
        (λ id o at. refresh-IsConsistent r o (h id o at))

  pub CustomerEffect-RefersActive :
      OrmLaws orm
      → {db db' : Db} → CustomerEffect orm db db'
      → Every orm RefersActive db
      → Every orm RefersActive db'
  CustomerEffect-RefersActive laws (same e) h = subst (Every orm RefersActive) (sym e) h
  CustomerEffect-RefersActive laws {db} {db'} (added _ _ _ _ _ _ _ _ orders) h =
      unread_Every RefersActive db db' orders h
  CustomerEffect-RefersActive laws {db} {db'} (changed _ _ r _ _ _ _ active _ w) h =
      refreshed_Every RefersActive r db db' w.orders
        (λ id o at. refresh-cases RefersActive r o (λ _ _. active) (λ _. h id o at))
  CustomerEffect-RefersActive laws {db} {db'} (removed _ _ r _ _ no_order _ _ w) h =
      refreshed_Every RefersActive r db db' w.orders (λ id o at.
        refresh-cases RefersActive r o
          (λ shown order_active.
            let free = laws.order_exists_false (is_order_of r.id) db id o no_order at in
            let held : is_order_of r.id o ≡ true = rw (shown, order_active) refl in absurd (cc))
          (λ _. h id o at))

  refreshed_Became :
      (r : Customer) (db db' : Db)
      → ((j : Text) → order_at db' j ≡ Option.map (refresh r) (order_at db j))
      → (id : Text) (o : Order) → order_at db id ≡ some o
      → Became orm db' id o
  refreshed_Became r db db' shows id o at =
      (refresh r o, rw (shows id, at) refl, refresh-Evolves r o)

  pub CustomerEffect-Became :
      {db db' : Db}
      → CustomerEffect orm db db'
      → (id : Text) (o : Order) → order_at db id ≡ some o
      → Became orm db' id o
  CustomerEffect-Became (same e) id o at = (o, rw e at, Evolves-refl o)
  CustomerEffect-Became (added _ _ _ _ _ _ _ _ orders) id o at = (o, orders id ∙ at, Evolves-refl o)
  CustomerEffect-Became {db} {db'} (changed _ _ r _ _ _ _ _ _ w) id o at =
      refreshed_Became r db db' w.orders id o at
  CustomerEffect-Became {db} {db'} (removed _ _ r _ _ _ _ _ w) id o at =
      refreshed_Became r db db' w.orders id o at
