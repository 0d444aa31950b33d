-- ===== src/App/Roles.antt =====
-- What a user without the administrator's role is refused.
use nest_order_api.Common.{ℕ, Text, lit, ◌≡◌, refl, ap, Bool, false, Option, some, List, [], ◌∷◌}
use nest_order_api.App.{Request, to_orders, to_customers, step}
use nest_order_api.Auth.{Role, admin, RequestUser, can_activate, includes, role_text}
use nest_order_api.Customer.Controller as CustomerController
use nest_order_api.Customer.Request.{CustomerRequest}
use nest_order_api.Effects.{err, ◌>>=◌}
use nest_order_api.Errors.{http}
use nest_order_api.Money.{Decimal}
use nest_order_api.Order.Controller as OrderController
use nest_order_api.Order.Controller.{Reflector}
use nest_order_api.Order.Event.{World}
use nest_order_api.Orm.{Orm}

-- The routes of the administrator.
pub data IsReserved : Request → Type 0 where
  delete_order :
      {u : RequestUser} {now : ℕ} (id : Text)
      → IsReserved (to_orders u now (OrderController.delete id))
  confirm_order :
      {u : RequestUser} {now : ℕ} (id : Text)
      → IsReserved (to_orders u now (OrderController.confirm id))
  cancel_order :
      {u : RequestUser} {now : ℕ} (id : Text)
      → IsReserved (to_orders u now (OrderController.cancel id))
  remove_item :
      {u : RequestUser} {now : ℕ} (id item_id : Text)
      → IsReserved (to_orders u now (OrderController.remove_item id item_id))
  create_customer :
      {u : RequestUser} {now : ℕ} {dto : CustomerRequest}
      → IsReserved (to_customers u now (CustomerController.create dto))
  update_customer :
      {u : RequestUser} {now : ℕ} {id : Text} {dto : CustomerRequest}
      → IsReserved (to_customers u now (CustomerController.update id dto))
  delete_customer :
      {u : RequestUser} {now : ℕ} {id : Text}
      → IsReserved (to_customers u now (CustomerController.delete id))

abbrev pub requester : Request → RequestUser
requester (to_orders u now cmd) = u
requester (to_customers u now cmd) = u

refused :
    (user : RequestUser)
    → includes user.roles (role_text admin) ≡ false
    → can_activate (some (admin ∷ [])) (some user) ≡ err (http 403 (lit "Access denied"))
unfolding can_activate
refused user h = rw h refl

-- Where the metadata of the handler overrides that of the class.
abbrev pub HandlerFirst : Reflector → Type 0
HandlerFirst reflector =
    (roles : List Role) (of_class : Option (List Role))
    → reflector (some roles) of_class ≡ some roles

module _ (dec : Decimal) (orm : Orm) (reflector : Reflector) (is_uuid is_email : Text → Bool) where
  orders_refused :
      HandlerFirst reflector
      → (user : RequestUser) (now : ℕ) (cmd : OrderController.Command) (w : World orm.Db)
      → OrderController.handler_roles cmd ≡ some (admin ∷ [])
      → includes user.roles (role_text admin) ≡ false
      → OrderController.handle dec orm reflector is_uuid user now cmd w
        ≡ (err (http 403 (lit "Access denied")), w)
  unfolding OrderController.handle
  orders_refused first user now cmd w roles h =
      rw (roles, first (admin ∷ []) OrderController.class_roles, refused user h, ◌>>=◌) refl

  customers_refused :
      HandlerFirst reflector
      → (user : RequestUser) (now : ℕ) (cmd : CustomerController.Command) (w : World orm.Db)
      → CustomerController.handler_roles cmd ≡ some (admin ∷ [])
      → includes user.roles (role_text admin) ≡ false
      → CustomerController.handle orm reflector is_uuid is_email user now cmd w
        ≡ (err (http 403 (lit "Access denied")), w)
  unfolding CustomerController.handle
  customers_refused first user now cmd w roles h =
      rw (roles, first (admin ∷ []) CustomerController.class_roles, refused user h, ◌>>=◌) refl

  orders_same :
      HandlerFirst reflector
      → (user : RequestUser) (now : ℕ) (cmd : OrderController.Command) (w : World orm.Db)
      → OrderController.handler_roles cmd ≡ some (admin ∷ [])
      → includes user.roles (role_text admin) ≡ false
      → (OrderController.handle dec orm reflector is_uuid user now cmd w).1 ≡ w
  orders_same first user now cmd w roles h =
      ap (λ p. p.1) (orders_refused first user now cmd w roles h)

  customers_same :
      HandlerFirst reflector
      → (user : RequestUser) (now : ℕ) (cmd : CustomerController.Command) (w : World orm.Db)
      → CustomerController.handler_roles cmd ≡ some (admin ∷ [])
      → includes user.roles (role_text admin) ≡ false
      → (CustomerController.handle orm reflector is_uuid is_email user now cmd w).1 ≡ w
  customers_same first user now cmd w roles h =
      ap (λ p. p.1) (customers_refused first user now cmd w roles h)

  -- A user without the role of an administrator changes nothing, in the database or the emitted
  -- events, by a request that deletes, confirms or cancels an order, removes an item, or creates,
  -- updates or deletes a customer, where the metadata of a handler overrides that of its class.
  pub step_reserved :
      HandlerFirst reflector
      → (request : Request) (w : World orm.Db) → IsReserved request
      → includes (requester request).roles (role_text admin) ≡ false
      → step dec orm reflector is_uuid is_email request w ≡ w
  unfolding step
  step_reserved first _ w (delete_order {u} {now} id) h = orders_same first u now _ w refl h
  step_reserved first _ w (confirm_order {u} {now} id) h = orders_same first u now _ w refl h
  step_reserved first _ w (cancel_order {u} {now} id) h = orders_same first u now _ w refl h
  step_reserved first _ w (remove_item {u} {now} id item_id) h = orders_same first u now _ w refl h
  step_reserved first _ w (create_customer {u} {now}) h = customers_same first u now _ w refl h
  step_reserved first _ w (update_customer {u} {now}) h = customers_same first u now _ w refl h
  step_reserved first _ w (delete_customer {u} {now}) h = customers_same first u now _ w refl h
