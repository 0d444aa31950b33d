-- ===== src/Order/Controller/Access.antt =====
-- Who can act on an order: what a request about another user's order is told, and what it leaves.
use nest_order_api.Common.{
  ℕ, Text, lit, ◌≡◌, ◌≢◌, text_ne, refl, Bool, true, false, Option, none, some, is_some, Bool-cases,
  inl, inr,
}
use nest_order_api.Audit.{intercept}
use nest_order_api.Auth.{RequestUser, admin, can_activate, includes, role_text}
use nest_order_api.Crud.{find_entity_by_id_or_throw, or_not_found, not_found}
use nest_order_api.Effects.{ok, err, ◌>>=◌, ◌>>◌}
use nest_order_api.Errors.{resource_not_found_order}
use nest_order_api.Money.{Decimal}
use nest_order_api.Order.Controller.{
  Command, find_by_id, delete, confirm, cancel, add_item, update_item_quantity, remove_item,
  handler_roles, class_roles, Reflector, is_accepted, execute, handle,
}
use nest_order_api.Order.Controller.Invariant.{handle-Effect}
use nest_order_api.Order.Entity.{Order}
use nest_order_api.Order.Event.{World}
use nest_order_api.Order.Guards.{can_access}
use nest_order_api.Order.Request.{ItemRequest, ItemQuantityUpdateRequest}
use nest_order_api.Order.Service
use nest_order_api.Order.Service.History.{Effect-inaccessible}
use nest_order_api.Orm.{Orm, active_order}
use nest_order_api.Orm.Laws.{OrmLaws}

-- The order that a request is about.
pub data IsAbout : Command → Text → Type 0 where
  reads : (id : Text) → IsAbout (find_by_id id) id
  deletes : (id : Text) → IsAbout (delete id) id
  confirms : (id : Text) → IsAbout (confirm id) id
  cancels : (id : Text) → IsAbout (cancel id) id
  adds : (id : Text) (dto : ItemRequest) → IsAbout (add_item id dto) id
  counts :
      (id item_id : Text) (dto : ItemQuantityUpdateRequest)
      → IsAbout (update_item_quantity id item_id dto) id
  drops : (id item_id : Text) → IsAbout (remove_item id item_id) id

-- The user is no administrator, and somebody else created the order.
pub record IsStranger (user : RequestUser) (o : Order) : Type 0 where
  pub no_admin : includes user.roles (role_text admin) ≡ false
  pub other_owner : o.created_by ≢ user.username

stranger_lem :
    (user : RequestUser) (o : Order)
    → IsStranger user o
    → can_access (intercept (some user)) o ≡ false
unfolding can_access intercept
stranger_lem user o s = rw (s.no_admin, text_ne o.created_by user.username s.other_owner) refl

-- There is no such row, it is deleted, or it belongs to somebody else.
pub data Hidden (user : RequestUser) : Option Order → Type 0 where
  missing : Hidden user none
  deleted : {o : Order} {t : ℕ} → o.deleted_at ≡ some t → Hidden user (some o)
  foreign : {o : Order} → IsStranger user o → Hidden user (some o)

hidden_lem :
    (user : RequestUser) (id : Text) (row : Option Order)
    → Hidden user row
    → or_not_found
        (lit "Order")
        resource_not_found_order
        (can_access (intercept (some user)))
        id
        (active_order row)
      ≡ err (not_found resource_not_found_order (lit "Order") id)
hidden_lem user id none h = refl
hidden_lem user id (some o) (deleted gone) = rw gone refl
hidden_lem user id (some o) (foreign s) = elim (Bool-cases (is_some o.deleted_at)) [
  | inl gone ↦ rw gone refl
  | inr active ↦ rw (active, stranger_lem user o s) refl
]

module _ (dec : Decimal) (orm : Orm) (laws : OrmLaws orm) where
  find_hidden :
      (user : RequestUser) (id : Text) (db : orm.Db)
      → Hidden user (orm.order_at db id)
      → or_not_found
          (lit "Order")
          resource_not_found_order
          (can_access (intercept (some user)))
          id
          (orm.find_order id db)
        ≡ err (not_found resource_not_found_order (lit "Order") id)
  find_hidden user id db h =
      rw (laws.find_order_lem id db) (hidden_lem user id (orm.order_at db id) h)

  execute_hidden :
      (user : RequestUser) (now : ℕ) (cmd : Command) (w : World orm.Db) (id : Text)
      → IsAbout cmd id
      → Hidden user (orm.order_at w.db id)
      → execute dec orm (intercept (some user)) now cmd w
        ≡ (err (not_found resource_not_found_order (lit "Order") id), w)
  unfolding execute find_entity_by_id_or_throw Service.find_order_or_throw Service.find_by_id
      Service.delete Service.confirm Service.cancel Service.add_item Service.update_item_quantity
      Service.remove_item
  execute_hidden user now cmd w id (reads x) h =
      rw (find_hidden user x w.db h, ◌>>=◌)
        (rw (find_hidden user x w.db h, Service.find_by_id, ◌>>=◌, ◌>>◌) refl)
  execute_hidden user now cmd w id (deletes x) h =
      rw (find_hidden user x w.db h, ◌>>=◌)
        (rw (find_hidden user x w.db h, Service.delete, ◌>>=◌, ◌>>◌) refl)
  execute_hidden user now cmd w id (confirms x) h =
      rw (find_hidden user x w.db h, ◌>>=◌)
        (rw (find_hidden user x w.db h, Service.confirm, ◌>>=◌, ◌>>◌) refl)
  execute_hidden user now cmd w id (cancels x) h =
      rw (find_hidden user x w.db h, ◌>>=◌)
        (rw (find_hidden user x w.db h, Service.cancel, ◌>>=◌, ◌>>◌) refl)
  execute_hidden user now cmd w id (adds x dto) h =
      rw (find_hidden user x w.db h, ◌>>=◌)
        (rw (find_hidden user x w.db h, Service.add_item, ◌>>=◌, ◌>>◌) refl)
  execute_hidden user now cmd w id (counts x item_id dto) h =
      rw (find_hidden user x w.db h, ◌>>=◌)
        (rw (find_hidden user x w.db h, Service.update_item_quantity, ◌>>=◌, ◌>>◌) refl)
  execute_hidden user now cmd w id (drops x item_id) h =
      rw (find_hidden user x w.db h, ◌>>=◌)
        (rw (find_hidden user x w.db h, Service.remove_item, ◌>>=◌, ◌>>◌) refl)

  module _ (reflector : Reflector) (is_uuid : Text → Bool) (user : RequestUser) (now : ℕ) where
    -- A valid request about an order that is missing, deleted or, for a user who is no administrator,
    -- created by somebody else gets the same answer in the three cases, "not found", and changes
    -- nothing.
    pub handle_hidden :
        (cmd : Command) (w : World orm.Db) (id : Text)
        → IsAbout cmd id
        → can_activate (reflector (handler_roles cmd) class_roles) (some user) ≡ ok true
        → is_accepted is_uuid cmd ≡ true
        → Hidden user (orm.order_at w.db id)
        → handle dec orm reflector is_uuid user now cmd w
          ≡ (err (not_found resource_not_found_order (lit "Order") id), w)
    unfolding handle
    handle_hidden cmd w id about allowed accepted h =
        rw (allowed, ◌>>=◌) (rw accepted (execute_hidden user now cmd w id about h))

    -- Whatever a user who is no administrator requests, an order that somebody else created is as it
    -- was.
    pub handle_inaccessible :
        (cmd : Command) (w : World orm.Db) (id : Text) (o : Order)
        → orm.order_at w.db id ≡ some o
        → IsStranger user o
        → orm.order_at (handle dec orm reflector is_uuid user now cmd w).1.db id ≡ some o
    handle_inaccessible cmd w id o at stranger =
        Effect-inaccessible dec orm (intercept (some user))
          (handle-Effect dec orm laws reflector is_uuid user now cmd w) id o at
          (stranger_lem user o stranger)
