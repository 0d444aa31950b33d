-- ===== src/Order/Service/History.antt =====
-- What can become of one order.
use nest_order_api.Common.{
  Text, ◌≡◌, refl, ◌≢◌, sym, ◌∙◌, ap, subst, true, false, List, none, some, text_eq, text_eq_iff,
  arith, Bool-cases, inl, inr,
}
use nest_order_api.Audit.{Store}
use nest_order_api.Money.{Decimal}
use nest_order_api.Order.Status.{OrderStatus, opened}
use nest_order_api.Order.Status.Reach.{
  Reach, here, next, confirm, cancel_open, cancel_confirmed, Reach-trans,
}
use nest_order_api.Order.Entity.{Item, Order, lines}
use nest_order_api.Order.Guards.{with_total, can_access}
use nest_order_api.Order.Service.Effect.{Effect, same, inserted, edited, moved, removed}
use nest_order_api.Orm.{Orm}
use nest_order_api.Orm.Laws.{OrderWritten}

-- `o'` is what became of `o`: the status went along the diagram, the owner is the same, an order
-- that was not open has its items and its total, and a deleted order stays deleted, with its
-- status, its items and its total.
pub record Evolves (o o' : Order) : Type 0 where
  pub status : Reach o.status o'.status
  pub owner : o'.created_by ≡ o.created_by
  pub frozen : o.status ≢ opened → (lines o'.items ≡ lines o.items) × (o'.total ≡ o.total)
  pub buried :
      o.deleted_at ≢ none
      → (o'.deleted_at ≡ o.deleted_at)
        × (o'.status ≡ o.status)
        × (lines o'.items ≡ lines o.items)
        × (o'.total ≡ o.total)

pub Evolves-refl : (o : Order) → Evolves o o
Evolves-refl o = record {
  status = here;
  owner = refl;
  frozen = λ _. (refl, refl);
  buried = λ _. (refl, refl, refl, refl);
}

Reach-closed : {s t : OrderStatus} → Reach s t → s ≢ opened → t ≢ opened
Reach-closed here n = n
Reach-closed (next r confirm) n = λ e. cc
Reach-closed (next r cancel_open) n = λ e. cc
Reach-closed (next r cancel_confirmed) n = λ e. cc

pub Evolves-trans : {a b c : Order} → Evolves a b → Evolves b c → Evolves a c
Evolves-trans {a} {b} {c} p q = record {
  status = Reach-trans p.status q.status;
  owner = q.owner ∙ p.owner;
  frozen = λ n.
      let (l, t) = p.frozen n in
      let (l', t') = q.frozen (Reach-closed p.status n) in (l' ∙ l, t' ∙ t);
  buried = λ n.
      let (d, s, l, t) = p.buried n in
      let (d', s', l', t') = q.buried (λ e. n (sym d ∙ e)) in (d' ∙ d, s' ∙ s, l' ∙ l, t' ∙ t);
}

with_total-status :
    (dec : Decimal) (o : Order) (items : List Item) → (with_total dec o items).status ≡ o.status
unfolding with_total
with_total-status dec o items = refl

-- The row of `id` is what became of `o`.
abbrev pub Became : (orm : Orm) → orm.Db → Text → Order → Type 0
Became orm db' id o = (o' : Order) × (orm.order_at db' id ≡ some o') × Evolves o o'

module _ (dec : Decimal) (orm : Orm) (store : Store) where
  open orm use {Db, order_at}

  clash-none : {o : Order} → none ≡ some o → ⊥
  clash-none e = cc

  clash_access :
      {old o : Order}
      → some old ≡ some o
      → can_access store old ≡ true
      → can_access store o ≡ false
      → ⊥
  clash_access e yes_access no_access = cc

  unread :
      {db db' : Db}
      → db' ≡ db
      → (id : Text) (o : Order) → order_at db id ≡ some o
      → Became orm db' id o
  unread e id o at = (o, rw e at, Evolves-refl o)

  -- One row was written over `old`.
  rewritten :
      {db db' : Db} (old s : Order)
      → order_at db s.id ≡ some old
      → Evolves old s
      → OrderWritten orm db db' s
      → (id : Text) (o : Order) → order_at db id ≡ some o
      → Became orm db' id o
  rewritten {db} {db'} old s was evolves w id o at = elim (Bool-cases (text_eq id s.id)) [
    | inl e ↦
        let own : id ≡ s.id = (text_eq_iff id s.id).0 e in
        let one : some old ≡ some o = sym was ∙ rw own at at in
        let here_now : order_at db' id ≡ some s = rw own w.row in
        let became : old ≡ o = cc in (s, here_now, subst (λ x. Evolves x s) became evolves)
    | inr e ↦
        let other : id ≢ s.id = λ p. ground (arith, text_eq_iff id s.id) in
        (o, w.others id other ∙ at, Evolves-refl o)
  ]

  -- No effect loses an order.
  pub Effect-Became :
      {db db' : Db}
      → Effect dec orm store db db'
      → (id : Text) (o : Order) → order_at db id ≡ some o
      → Became orm db' id o
  Effect-Became (same e) id o at = unread e id o at
  Effect-Became {db} (inserted dto c s _ _ _ _ fresh _ _ _ w) id o at =
      elim (Bool-cases (text_eq id s.id)) [
        | inl e ↦
            let own : id ≡ s.id = (text_eq_iff id s.id).0 e in
            let clash : none ≡ some o = sym fresh ∙ rw own at at in absurd (cc)
        | inr e ↦
            let other : id ≢ s.id = λ p. ground (arith, text_eq_iff id s.id) in
            (o, w.others id other ∙ at, Evolves-refl o)
      ]
  Effect-Became (edited old s items held open_status _ content row w) id o at =
      rewritten old s held.was
        (record {
          status = rw (content.status ∙ with_total-status dec old items) here;
          owner = row.created_by;
          frozen = λ n. absurd (n open_status);
          buried = λ n. absurd (n held.active);
        })
        w id o at
  Effect-Became (moved old s target held step _ content row w) id o at =
      rewritten old s held.was
        (record {
          status = rw content.status (next here step);
          owner = row.created_by;
          frozen = λ _. (content.same_lines, content.total);
          buried = λ n. absurd (n held.active);
        })
        w id o at
  Effect-Became (removed old s d held _ e row w) id o at =
      rewritten old s held.was
        (record {
          status = rw e here;
          owner = row.created_by;
          frozen = λ _. (ap (λ d. lines d.items) e, ap (λ d. d.total) e);
          buried = λ n. absurd (n held.active);
        })
        w id o at

  -- An order that the user has no access to is as it was.
  pub Effect-inaccessible :
      {db db' : Db}
      → Effect dec orm store db db'
      → (id : Text) (o : Order) → order_at db id ≡ some o
      → can_access store o ≡ false
      → order_at db' id ≡ some o
  Effect-inaccessible (same e) id o at no_access = rw e at
  Effect-inaccessible (inserted dto c s _ _ _ _ fresh _ _ _ w) id o at no_access =
      w.others id (λ own. clash-none (sym fresh ∙ rw own at at)) ∙ at
  Effect-inaccessible (edited old s items held _ _ _ _ w) id o at no_access =
      w.others id (λ own. clash_access (sym held.was ∙ rw own at at) held.accessible no_access) ∙ at
  Effect-inaccessible (moved old s target held _ _ _ _ w) id o at no_access =
      w.others id (λ own. clash_access (sym held.was ∙ rw own at at) held.accessible no_access) ∙ at
  Effect-inaccessible (removed old s d held _ _ _ w) id o at no_access =
      w.others id (λ own. clash_access (sym held.was ∙ rw own at at) held.accessible no_access) ∙ at
