-- ===== src/Customer/Service/Effect.antt =====
-- What a method of the customer service can do to the database: nothing, or one write of one
-- customer row.
use nest_order_api.Common.{Text, ◌≡◌, ◌≢◌, false, [], Option, none, some}
use nest_order_api.Values.{cleared}
use nest_order_api.Customer.Entity.{CustomerData, Customer}
use nest_order_api.Customer.Service.{
  UniqueField, tax_id, passport_number, text_of, holds_value, is_order_of,
}
use nest_order_api.Orm.{Orm, Deletion}
use nest_order_api.Orm.Laws.{written_optional, DeletedRow, CustomerWritten}

module _ (orm : Orm) where
  open orm use {Db, customer_at, order_at, customer_exists, order_exists}

  -- No row holds the value, but the one that is left out; `undefined`, `null` and "" are no values.
  abbrev pub Free : Db → UniqueField → Option Text → Option Text → Type 0
  Free db field value exclude_id =
      (s : Text)
      → value ≡ some s
      → s ≢ []
      → customer_exists (holds_value field s exclude_id) db ≡ false

  pub record FreeValues (db : Db) (d : CustomerData) (exclude_id : Option Text) : Type 0 where
    pub free_tax_id : Free db tax_id (some d.tax_id) exclude_id
    pub free_passport : Free db passport_number (text_of d.passport_number) exclude_id

  pub data CustomerEffect (db db' : Db) : Type 0 where
    same : db' ≡ db → CustomerEffect db db'
    added :
        (d : CustomerData) (r : Customer)
        → FreeValues db d none
        → r.details ≡ record d { passport_number = written_optional cleared d.passport_number }
        → r.deleted_at ≡ none
        → customer_at db r.id ≡ none
        → customer_at db' r.id ≡ some r
        → ((j : Text) → j ≢ r.id → customer_at db' j ≡ customer_at db j)
        → ((j : Text) → order_at db' j ≡ order_at db j)
        → CustomerEffect db db'
    changed :
        (d : CustomerData) (old r : Customer)
        → customer_at db r.id ≡ some old
        → old.deleted_at ≡ none
        → FreeValues db d (some r.id)
        → r.details
          ≡ record d { passport_number = written_optional old.passport_number d.passport_number }
        → r.deleted_at ≡ none
        → r.created_by ≡ old.created_by
        → CustomerWritten orm db db' r
        → CustomerEffect db db'
    removed :
        (d : Deletion) (old r : Customer)
        → customer_at db r.id ≡ some old
        → old.deleted_at ≡ none
        → order_exists (is_order_of r.id) db ≡ false
        → r.details ≡ old.details
        → DeletedRow d old.versioned r.versioned
        → CustomerWritten orm db db' r
        → CustomerEffect db db'
