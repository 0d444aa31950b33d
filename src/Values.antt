-- ===== src/Values.antt =====
-- The values of the language that cross the interfaces: request bodies, parameters of errors.
use nest_order_api.Common.{ℕ, Text, Bool}

mutual
  pub data Value : Type 0 where
    undefined null : Value
    bool : Bool → Value
    num date : ℕ → Value
    str : Text → Value
    arr : Items → Value
    obj : Fields → Value

  pub data Items : Type 0 where
    nil : Items
    cons : Value → Items → Items

  pub data Fields : Type 0 where
    end : Fields
    field : Text → Value → Fields → Fields

-- `{ key: text }`
abbrev pub one_field : Text → Text → Fields
one_field key text = field key (str text) end

-- An optional property: left out (`undefined`), `null`, or given.
pub data Optional : Type 0 where
  unset cleared : Optional
  given : Text → Optional
