-- ===== src/Search/Criteria.antt =====
-- operator.enum.ts, search-limits.ts, search-request.dto.ts, and `parseQueryFilters` of
-- search.service.ts: the criteria of a request's `filter`.
pub mod Limits
use nest_order_api.Common.{
  ℕ, suc, ◌+◌, Text, lit, text_eq, Bool, true, false, List, [], ◌∷◌, ◌++◌, Option, none, some,
  length, ltb, leb, ◌||◌, find, if◌then◌else◌,
}
use nest_order_api.Effects.{Result, ok, err}
use nest_order_api.Errors.{
  Exception, domain, invalid_input_exception, validation_invalid_filter_value,
}
use nest_order_api.Fallible.{◌>>=◌, ◌>>◌, throw_when}
use nest_order_api.Money.{digits}
use nest_order_api.Values.{
  Value, undefined, null, bool, num, date, str, arr, obj, Items, nil, cons, Fields, end, field,
}

pub data Operator : Type 0 where
  eq neq lt lte gt gte is_in between lk : Operator

abbrev pub operator_text : Operator → Text
operator_text eq = lit "eq"
operator_text neq = lit "neq"
operator_text lt = lit "lt"
operator_text lte = lit "lte"
operator_text gt = lit "gt"
operator_text gte = lit "gte"
operator_text is_in = lit "in"
operator_text between = lit "between"
operator_text lk = lit "lk"

-- `Object.values(Operator)`
abbrev pub operators : List Operator
operators = eq ∷ neq ∷ lt ∷ lte ∷ gt ∷ gte ∷ is_in ∷ between ∷ lk ∷ []

pub record FilterCriterion : Type 0 where
  pub on : Text
  pub operator : Operator
  pub value : Text

abbrev pub max_filter_fields : ℕ
max_filter_fields = 10

abbrev pub max_conditions_per_field : ℕ
max_conditions_per_field = 10

abbrev pub max_in_values : ℕ
max_in_values = 100

abbrev pub max_value_length : ℕ
max_value_length = 200

abbrev pub max_offset : ℕ
max_offset = 2_147_483_647

abbrev pub exceeds_limits : Exception
exceeds_limits = domain (
    invalid_input_exception validation_invalid_filter_value
      (lit "Search filters exceed the allowed limits") end)

abbrev pub unsupported_operator : Text → Exception
unsupported_operator raw = domain (
    invalid_input_exception validation_invalid_filter_value
      (lit "Unsupported operator \"" ++ raw ++ lit "\"") end)

-- `parseOperator`
unfoldable pub parse_operator : Text → Result Operator
parse_operator raw = elim (find (λ o. text_eq (operator_text o) raw) operators) [
  | none ↦ err (unsupported_operator raw)
  | some o ↦ ok o
]

-- `checkedValue`
unfoldable pub checked_value : Value → Result Text
checked_value (str s) = if ltb max_value_length (length s) then err exceeds_limits else ok s
checked_value _ = err exceeds_limits

-- `Object.entries(value).length`
abbrev pub size_of : Fields → ℕ
size_of end = 0
size_of (field _ _ fs) = suc (size_of fs)

-- The entries of an array have its indices as their keys.
abbrev pub indexed : ℕ → Items → Fields
indexed i nil = end
indexed i (cons v xs) = field (digits i) v (indexed (i + 1) xs)

-- The inner loop, over the operators of one field.
unfoldable pub parse_conditions : Text → Fields → Result (List FilterCriterion)
unfolding parse_operator checked_value
parse_conditions on end = ok []
parse_conditions on (field name v fs) = do
  operator ← parse_operator name
  value ← checked_value v
  rest ← parse_conditions on fs
  ok (record { on = on; operator = operator; value = value } ∷ rest)

abbrev pub parse_entries : Text → Fields → Result (List FilterCriterion)
parse_entries on fs =
    throw_when (ltb max_conditions_per_field (size_of fs)) exceeds_limits >> parse_conditions on fs

-- One field of the filter: a text, an object of operators, or something that is passed over.
unfoldable pub parse_field : Text → Value → Result (List FilterCriterion)
unfolding parse_conditions checked_value
parse_field on (str s) = do
  value ← checked_value (str s)
  ok (record { on = on; operator = eq; value = value } ∷ [])
parse_field on (obj fs) = parse_entries on fs
parse_field on (arr xs) = parse_entries on (indexed 0 xs)
parse_field on (date _) = parse_entries on end
parse_field on _ = ok []

-- The outer loop.
unfoldable pub parse_fields : Fields → Result (List FilterCriterion)
unfolding parse_field
parse_fields end = ok []
parse_fields (field on v fs) = do here ← parse_field on v; rest ← parse_fields fs; ok (here ++ rest)

-- `parseQueryFilters` on a filter that the validation accepts: left out, or an object, whose fields
-- stand in the order of `Object.entries`.
unfoldable pub parse_query_filters : Option Fields → Result (List FilterCriterion)
unfolding parse_fields
parse_query_filters none = ok []
parse_query_filters (some entries) =
    throw_when (ltb max_filter_fields (size_of entries)) exceeds_limits >> parse_fields entries
