-- ===== src/Customer/Lock.antt =====
-- `lockActiveOrThrow` of customer.service.ts, which the creation of an order uses too.
use nest_order_api.Common.{Text, lit, true}
use nest_order_api.Errors.{resource_not_found_customer}
use nest_order_api.Effects.{Action, of_result}
use nest_order_api.Customer.Entity.{Customer}
use nest_order_api.Orm.{Orm, LockMode}
use nest_order_api.Crud.{or_not_found}

unfoldable pub lock_active_or_throw : (orm : Orm) → Text → LockMode → Action orm.Db Customer
lock_active_or_throw orm id mode db =
    of_result
      (or_not_found (lit "Customer") resource_not_found_customer (λ _. true) id
        (orm.lock_customer mode id db))
      db
