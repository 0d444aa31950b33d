-- ===== src/Customer/Entity.antt =====
-- customer.entity.ts and dto/customer-response.dto.ts
use nest_order_api.Common.{ℕ, Text}
use nest_order_api.Values.{Optional}
use nest_order_api.Audit.{Versioned}

-- What the service sets; the rest is the database's and the subscriber's.
pub record CustomerData : Type 0 where
  pub name : Text
  pub tax_id : Text
  pub passport_number : Optional
  pub email : Text

pub record Customer : Type 0 where
  pub id : Text
  pub details : CustomerData
  pub open details use *
  pub versioned : Versioned
  pub open versioned use *

pub record CustomerResponse : Type 0 where
  pub id : Text
  pub name : Text
  pub tax_id : Text
  pub passport_number : Optional
  pub email : Text
  pub created_at : ℕ
  pub updated_at : ℕ

-- `CustomerResponseDto.from`
unfoldable pub customer_response : Customer → CustomerResponse
customer_response c = record {
  id = c.id;
  name = c.name;
  tax_id = c.tax_id;
  passport_number = c.passport_number;
  email = c.email;
  created_at = c.created_at;
  updated_at = c.updated_at;
}
