-- ===== src/Search/Value.antt =====
-- filter-value.ts: the text of a filter as a value of its column. `parses_as_date` tells whether
-- `Date.parse` understands a text.
pub mod Accepted
use nest_order_api.Common.{
  ℕ, ◌+◌, ◌*◌, ◌-◌, ◌^◌, Text, lit, text_eq, starts_with, drop_units, to_lower, split_on, Bool,
  true, false, not, ◌&&◌, ◌||◌, List, [], ◌∷◌, ◌++◌, Option, none, some, is_some, leb, ◌==◌, all,
  length, ltb, if◌then◌else◌,
}
use nest_order_api.Effects.{Result, ok, err}
use nest_order_api.Errors.{
  Exception, domain, invalid_input_exception, validation_invalid_filter_value,
}
use nest_order_api.Patterns.{is_digit, is_digits, is_uuid_text, after_run, after_unit}
use nest_order_api.Search.Column.{
  FilterableColumn, ColumnKind, uuid, integer, decimal, boolean, datetime, enum, text, kind_of,
  is_one_of,
}
use nest_order_api.Values.{one_field}

-- What is bound to a parameter of the query: a text, a whole number as its sign and its size (`-0`
-- is a value of its own), or a truth value.
pub data FilterValue : Type 0 where
  plain : Text → FilterValue
  whole : Bool → ℕ → FilterValue
  truth : Bool → FilterValue

-- The text after a leading minus, if it has one.
abbrev pub is_negative : Text → Bool
is_negative raw = starts_with raw (lit "-")

abbrev pub unsigned : Text → Text
unsigned raw = if is_negative raw then drop_units 1 raw else raw

-- `/^-?\d+$/`
unfoldable pub is_integer_text : Text → Bool
unfolding starts_with drop_units is_digits
is_integer_text raw = is_digits (unsigned raw)

-- The number that a row of digits stands for.
unfoldable pub digits_value : ℕ → Text → ℕ
digits_value acc [] = acc
digits_value acc (c ∷ s) = digits_value (acc * 10 + (c - 48)) s

-- `Number.isSafeInteger(Number(raw))` for such a text: rounding takes no number across the bound.
abbrev pub max_safe_integer : ℕ
max_safe_integer = 2 ^ 53 - 1

abbrev pub is_safe : ℕ → Bool
is_safe n = leb n max_safe_integer

-- The parts that `split('.')` gives.
unfoldable pub is_decimal_parts : List Text → Bool
unfolding is_digits
is_decimal_parts [] = false
is_decimal_parts (whole_part ∷ []) = is_digits whole_part
is_decimal_parts (whole_part ∷ fraction ∷ []) = is_digits whole_part && is_digits fraction
is_decimal_parts (_ ∷ _ ∷ _ ∷ _) = false

-- `isPlainDecimal`
unfoldable pub is_plain_decimal : Text → Bool
unfolding is_decimal_parts split_on starts_with drop_units
is_plain_decimal raw = is_decimal_parts (split_on b'.' (unsigned raw))

-- `/^\d{4}-\d{2}-\d{2}/`
unfoldable pub is_date_prefix : Text → Bool
unfolding after_run after_unit
is_date_prefix raw = elim (after_run is_digit 4 raw) [
  | none ↦ false
  | some s ↦ elim (after_unit b'-' s) [
    | none ↦ false
    | some t ↦ elim (after_run is_digit 2 t) [
      | none ↦ false
      | some u ↦ elim (after_unit b'-' u) [
        | none ↦ false
        | some v ↦ is_some (after_run is_digit 2 v)
      ]
    ]
  ]
]

-- `[0-9TZ:.+\- ]`
abbrev pub is_date_unit : ℕ → Bool
is_date_unit c =
    is_digit c
    || c == b'T'
    || c == b'Z'
    || c == b':'
    || c == b'.'
    || c == b'+'
    || c == b'-'
    || c == b' '

abbrev pub invalid : {A : Type 0} → FilterableColumn → Result A
invalid column = err (
    domain (
      invalid_input_exception validation_invalid_filter_value
        (lit "Invalid value for field: " ++ column.property_name)
        (one_field (lit "field") column.property_name)))

-- `column.enum!.includes(raw)`
abbrev pub enum_values : Option (List Text) → List Text
enum_values none = []
enum_values (some vs) = vs

module _ (parses_as_date : Text → Bool) where
  -- `isIsoDate`
  unfoldable pub is_iso_date : Text → Bool
  unfolding is_date_prefix
  is_iso_date raw =
      leb (length raw) 40
      && is_date_prefix raw
      && not (length raw == 0)
      && all is_date_unit raw
      && parses_as_date raw

  -- The branches of the `switch`.
  unfoldable pub coerce_as : ColumnKind → FilterableColumn → Text → Result FilterValue
  unfolding is_integer_text digits_value is_plain_decimal is_uuid_text is_iso_date to_lower
  coerce_as uuid column raw = if is_uuid_text raw then ok (plain (to_lower raw)) else invalid column
  coerce_as integer column raw =
      let size = digits_value 0 (unsigned raw) in
      if is_integer_text raw && is_safe size
      then ok (whole (is_negative raw) size)
      else invalid column
  coerce_as decimal column raw = if is_plain_decimal raw then ok (plain raw) else invalid column
  coerce_as boolean column raw =
      if text_eq (to_lower raw) (lit "true")
      then ok (truth true)
      else if text_eq (to_lower raw) (lit "false")
      then ok (truth false)
      else invalid column
  coerce_as datetime column raw = if is_iso_date raw then ok (plain raw) else invalid column
  coerce_as enum column raw =
      if is_one_of (enum_values column.values) raw then ok (plain raw) else invalid column
  coerce_as text column raw = ok (plain raw)

  -- `coerceFilterValue`
  unfoldable pub coerce_filter_value : FilterableColumn → Text → Result FilterValue
  unfolding coerce_as kind_of
  coerce_filter_value column raw = coerce_as (kind_of column) column raw
