-- ===== src/Customer/Service.antt =====
-- customer.service.ts, for the user of `store`, at the time `now`.
pub mod Effect
pub mod Methods
pub mod Unique
pub mod References
use nest_order_api.Common.{
  ℕ, Text, lit, ◌++◌, Bool, true, false, not, ◌&&◌, [], ◌∷◌, Option, none, some, is_some, text_eq,
  if◌then◌else◌,
}
use nest_order_api.Values.{Optional, unset, cleared, given, one_field}
use nest_order_api.Errors.{
  ErrorCode, resource_not_found_customer, validation_customer_taxid_exists,
  validation_customer_passport_exists, validation_customer_has_orders, Exception, domain,
  conflict_exception, invalid_input_exception,
}
use nest_order_api.Audit.{Store, current_username}
use nest_order_api.Effects.{Result, ok, Action, ◌>>=◌, ◌>>◌, pure, gets, throw_if}
use nest_order_api.Customer.Entity.{CustomerData, Customer, CustomerResponse, customer_response}
use nest_order_api.Customer.Request.{CustomerRequest}
use nest_order_api.Customer.Lock.{lock_active_or_throw}
use nest_order_api.Order.Entity.{Order}
use nest_order_api.Order.Event.{World, on_db}
use nest_order_api.Order.Guards.{insert_hook, update_hook}
use nest_order_api.Orm.{Orm, Deletion, pessimistic_read, pessimistic_write}
use nest_order_api.Crud.{find_entity_by_id_or_throw}

-- The columns that `ensureFieldUniqueOrThrow` is asked about.
pub data UniqueField : Type 0 where
  tax_id passport_number : UniqueField

abbrev pub field_name : UniqueField → Text
field_name tax_id = lit "taxId"
field_name passport_number = lit "passportNumber"

-- A text, or `undefined` and `null`.
abbrev pub text_of : Optional → Option Text
text_of (given s) = some s
text_of unset = none
text_of cleared = none

-- The column of a row; SQL's NULL equals nothing.
abbrev pub column : UniqueField → Customer → Option Text
column tax_id c = some c.tax_id
column passport_number c = text_of c.passport_number

abbrev pub column_is : Text → Option Text → Bool
column_is value none = false
column_is value (some s) = text_eq s value

-- `if (excludeId) andWhere('c.id != :excludeId')`
abbrev pub not_excluded : Option Text → Customer → Bool
not_excluded none c = true
not_excluded (some []) c = true
not_excluded (some (x ∷ id)) c = not (text_eq c.id (x ∷ id))

abbrev pub holds_value : UniqueField → Text → Option Text → Customer → Bool
holds_value field value exclude_id c = column_is value (column field c) && not_excluded exclude_id c

abbrev pub value_taken : UniqueField → Text → ErrorCode → Text → Exception
value_taken field value code message =
    domain (conflict_exception code message (one_field (field_name field) value))

abbrev pub has_orders : Text → Exception
has_orders id = domain (
    invalid_input_exception validation_customer_has_orders
      (lit "Customer " ++ id ++ lit " has orders and cannot be deleted") (one_field (lit "id") id))

-- The condition of the native query.
abbrev pub is_order_of : Text → Order → Bool
is_order_of id o = text_eq o.customer.id id && not (is_some o.deleted_at)

abbrev pub customer_data : CustomerRequest → CustomerData
customer_data dto = record {
  name = dto.name;
  tax_id = dto.tax_id;
  passport_number = dto.passport_number;
  email = dto.email;
}

module _ (orm : Orm) where
  open orm use {Db, customer_exists, order_exists}

  unfoldable pub ensure_field_unique_or_throw :
      UniqueField → Option Text → ErrorCode → Text → Option Text → Action (World Db) (Unit {0})
  ensure_field_unique_or_throw field none code message exclude_id w = (ok tt, w)
  ensure_field_unique_or_throw field (some []) code message exclude_id w = (ok tt, w)
  ensure_field_unique_or_throw field (some (x ∷ xs)) code message exclude_id w =
      throw_if (customer_exists (holds_value field (x ∷ xs) exclude_id) w.db)
        (value_taken field (x ∷ xs) code message) w

  -- The two checks that `create` and `update` begin with.
  unfoldable pub ensure_unique_or_throw :
      CustomerRequest → Option Text → Action (World Db) (Unit {0})
  unfolding ensure_field_unique_or_throw
  ensure_unique_or_throw dto exclude_id = do
    ensure_field_unique_or_throw tax_id (some dto.tax_id) validation_customer_taxid_exists
        (lit "taxId already exists") exclude_id
    ensure_field_unique_or_throw passport_number (text_of dto.passport_number)
        validation_customer_passport_exists (lit "passportNumber already exists") exclude_id

  unfoldable pub is_customer_associated_with_any_order : Text → Db → Bool
  is_customer_associated_with_any_order id db = order_exists (is_order_of id) db

module _ (orm : Orm) (store : Store) (now : ℕ) where
  open orm use {Db, find_customer, insert_customer, save_customer, update_customer, transaction}

  unfoldable pub create : CustomerRequest → Action (World Db) CustomerResponse
  unfolding customer_response
  create dto = do
    ensure_unique_or_throw orm dto none
    saved ← on_db (insert_customer (insert_hook store) (customer_data dto))
    pure (customer_response saved)

  unfoldable pub find_customer_or_throw : Text → Action (World Db) Customer
  unfolding find_entity_by_id_or_throw
  find_customer_or_throw id = on_db (
      find_entity_by_id_or_throw (lit "Customer") resource_not_found_customer find_customer
        (λ _. true) id)

  unfoldable pub update : Text → CustomerRequest → Action (World Db) CustomerResponse
  unfolding find_customer_or_throw customer_response
  update id dto = do
    customer ← find_customer_or_throw id
    ensure_unique_or_throw orm dto (some id)
    saved ←
        on_db (save_customer (update_hook store) (record customer { details = customer_data dto }))
    pure (customer_response saved)

  unfoldable pub find_by_id : Text → Action (World Db) CustomerResponse
  unfolding find_customer_or_throw customer_response
  find_by_id id = do pure (customer_response (← find_customer_or_throw id))

  -- The callback of the transaction in `delete`.
  unfoldable pub delete_in_transaction : Text → Action Db (Unit {0})
  unfolding lock_active_or_throw is_customer_associated_with_any_order
  delete_in_transaction id = do
    lock_active_or_throw orm id pessimistic_write
    throw_if (← gets (is_customer_associated_with_any_order orm id)) (has_orders id)
    update_customer id (record { deleted_at = now; deleted_by = current_username store })

  unfoldable pub delete : Text → Action (World Db) (Unit {0})
  delete id = on_db (transaction (delete_in_transaction id))
