-- ===== src/Order/Service/Consistent.antt =====
-- What the effects keep of every order in the database.
use nest_order_api.Common.{
  ℕ, Text, ◌≡◌, refl, ◌≢◌, sym, ◌∙◌, subst, ◌≤◌, all, true, false, List, [], ◌∷◌, map, length,
  length-map, Option, none, some, text_eq, text_eq_iff, arith, Bool-cases, inl, inr,
}
use nest_order_api.Audit.{Store}
use nest_order_api.Money.{Decimal}
use nest_order_api.Customer.Entity.{Customer}
use nest_order_api.Order.Status.{OrderStatus, opened, confirmed}
use nest_order_api.Order.Entity.{
  Item, OrderData, Order, lines, max_items_per_order, calculate_total,
}
use nest_order_api.Order.Entity.Total.{IsConsistent, calculate_total_exact}
use nest_order_api.Order.Request.{OrderCreateRequest, is_valid_item_request}
use nest_order_api.Order.Guards.{with_total, with_status, new_order_data, to_item_entity}
use nest_order_api.Order.Service.Effect.{Effect, same, inserted, edited, moved, removed}
use nest_order_api.Order.Service.Edits.{WithinLimits, Edit-WithinLimits, new_lines}
use nest_order_api.Orm.{Orm}
use nest_order_api.Orm.Laws.{OrderWritten, SameOrder}

same_IsConsistent : {o s : OrderData} → SameOrder o s → IsConsistent o → IsConsistent s
same_IsConsistent e c = record {
  priced = rw e.same_lines c.priced;
  few = rw e.same_lines c.few;
  exact = rw (e.total, e.same_lines) c.exact;
  filled = λ h. rw e.same_lines (c.filled (rw e.status at h));
}

lines-ne-nil : (items : List Item) → items ≢ [] → lines items ≢ []
lines-ne-nil [] n = absurd (n refl)
lines-ne-nil (it ∷ items) n = λ e. cc

pub text_ne_of : (a b : Text) → text_eq a b ≡ false → a ≢ b
text_ne_of a b h e = ground (arith, text_eq_iff a b)

deleted_active : {t : ℕ} {o : Option ℕ} → o ≡ some t → o ≡ none → ⊥
deleted_active p q = cc

module _ (dec : Decimal) where
  total_IsConsistent :
      (o : OrderData)
      → WithinLimits (lines o.items)
      → o.status ≡ opened
      → IsConsistent (calculate_total dec o)
  unfolding calculate_total
  total_IsConsistent o (priced, few) open_status = record {
    priced = priced;
    few = few;
    exact = (calculate_total_exact dec o priced few).0;
    filled = λ h. cc;
  }

  new_order_data-customer :
      (dto : OrderCreateRequest) (c : Customer)
      → c.deleted_at ≡ none
      → (new_order_data dec dto c).customer.deleted_at ≡ none
  unfolding new_order_data
  new_order_data-customer dto c h = h

  with_total-customer :
      (o : Order) (items : List Item)
      → o.customer.deleted_at ≡ none
      → (with_total dec o items).customer.deleted_at ≡ none
  unfolding with_total
  with_total-customer o items h = h

  edited_IsConsistent :
      (o : Order) (items : List Item)
      → WithinLimits (lines items)
      → o.status ≡ opened
      → IsConsistent (with_total dec o items).details
  unfolding with_total
  edited_IsConsistent o items h open_status =
      total_IsConsistent (record o.details { items = items }) h open_status

  created_IsConsistent :
      (dto : OrderCreateRequest) (c : Customer)
      → all is_valid_item_request dto.items ≡ true
      → length dto.items ≤ max_items_per_order
      → IsConsistent (new_order_data dec dto c)
  unfolding new_order_data
  created_IsConsistent dto c valid few =
      total_IsConsistent
        (record { customer = c; items = map to_item_entity dto.items; total = []; status = opened })
        (
          new_lines dto.items valid,
          rw (length-map (λ (it : Item). it.line) (map to_item_entity dto.items))
              (rw (length-map to_item_entity dto.items) few),
        )
        refl

  moved_IsConsistent :
      (o : Order) (target : OrderStatus)
      → (target ≡ confirmed → o.items ≢ [])
      → IsConsistent o.details
      → IsConsistent (with_status o target).details
  moved_IsConsistent o target filled c = record {
    priced = c.priced;
    few = c.few;
    exact = c.exact;
    filled = λ h. lines-ne-nil o.items (filled h);
  }

module _ (orm : Orm) where
  open orm use {Db, order_at}

  -- Of every order row.
  abbrev pub Every : (Order → Type 0) → Db → Type 0
  Every P db = (id : Text) (o : Order) → order_at db id ≡ some o → P o

  pub written_Every :
      (P : Order → Type 0) {db db' : Db} {s : Order}
      → OrderWritten orm db db' s
      → Every P db
      → P s
      → Every P db'
  written_Every P {db} {db'} {s} w all_before p id o at = elim (Bool-cases (text_eq id s.id)) [
    | inl e ↦
        let own : id ≡ s.id = (text_eq_iff id s.id).0 e in
        let at' : some s ≡ some o = sym w.row ∙ rw own at at in subst P (cc) p
    | inr e ↦ all_before id o (sym (w.others id (text_ne_of id s.id e)) ∙ at)
  ]

-- An order that is not deleted belongs to a customer that is not deleted.
abbrev pub RefersActive : Order → Type 0
RefersActive o = o.deleted_at ≡ none → o.customer.deleted_at ≡ none

module _ (dec : Decimal) (orm : Orm) (store : Store) where
  open orm use {Db, order_at}

  pub Effect-IsConsistent :
      {db db' : Db}
      → Effect dec orm store db db'
      → Every orm (λ o. IsConsistent o.details) db
      → Every orm (λ o. IsConsistent o.details) db'
  Effect-IsConsistent (same e) h = subst (Every orm (λ o. IsConsistent o.details)) (sym e) h
  Effect-IsConsistent (inserted dto c s valid few _ _ _ content _ _ w) h =
      written_Every orm (λ o. IsConsistent o.details) w h
        (same_IsConsistent content (created_IsConsistent dec dto c valid few))
  Effect-IsConsistent (edited old s items held open_status e content _ w) h =
      let c = h s.id old held.was in
      written_Every orm (λ o. IsConsistent o.details) w h
        (same_IsConsistent content
          (edited_IsConsistent dec old items (Edit-WithinLimits e (c.priced, c.few)) open_status))
  Effect-IsConsistent (moved old s target held _ filled content _ w) h =
      written_Every orm (λ o. IsConsistent o.details) w h
        (same_IsConsistent content (moved_IsConsistent dec old target filled (h s.id old held.was)))
  Effect-IsConsistent (removed old s d held _ e _ w) h =
      written_Every orm (λ o. IsConsistent o.details) w h
        (subst IsConsistent (sym e) (h s.id old held.was))

  pub Effect-RefersActive :
      {db db' : Db}
      → Effect dec orm store db db'
      → Every orm RefersActive db
      → Every orm RefersActive db'
  Effect-RefersActive (same e) h = subst (Every orm RefersActive) (sym e) h
  Effect-RefersActive (inserted dto c s _ _ _ active _ content _ _ w) h =
      written_Every orm RefersActive w h
        (λ _. rw content.customer (new_order_data-customer dec dto c active))
  Effect-RefersActive (edited old s items held _ _ content row w) h =
      written_Every orm RefersActive w h (λ _.
        rw content.customer (with_total-customer dec old items (h s.id old held.was held.active)))
  Effect-RefersActive (moved old s target held _ _ content row w) h =
      written_Every orm RefersActive w h
        (λ _. rw content.customer (h s.id old held.was held.active))
  Effect-RefersActive (removed old s d held _ e row w) h =
      written_Every orm RefersActive w h (λ active. absurd (deleted_active row.deleted_at active))
