-- ===== src/Search/Query.antt =====
-- `applyFilter` of search.service.ts: a criterion as a condition of the query and the values of its
-- parameters. The columns of a condition are those of the query's alias.
pub mod Meaning
pub mod Parameters
pub mod Clauses
pub mod Refines
pub mod Like
use nest_order_api.Common.{
  ℕ, ◌+◌, Text, lit, ◌++◌, text_eq, split_on, Bool, true, false, ◌&&◌, ◌||◌, List, [], ◌∷◌, Option,
  none, some, length, ltb, ◌==◌, if◌then◌else◌,
}
use nest_order_api.Effects.{Result, ok, err}
use nest_order_api.Errors.{
  Exception, domain, invalid_input_exception, validation_invalid_filter_value,
}
use nest_order_api.Fallible.{◌>>=◌, ◌>>◌, throw_when}
use nest_order_api.Money.{digits}
use nest_order_api.Search.Column.{
  FilterableColumn, ColumnKind, uuid, integer, decimal, boolean, datetime, enum, text, kind_of,
}
use nest_order_api.Search.Criteria.{
  Operator, eq, neq, lt, lte, gt, gte, is_in, between, lk, FilterCriterion, max_in_values,
}
use nest_order_api.Search.Value.{FilterValue, plain, coerce_filter_value}
use nest_order_api.Values.{one_field}

pub data Direction : Type 0 where
  asc desc : Direction

pub data Test : Type 0 where
  equal unequal less at_most more at_least : Test

-- A condition on a column, where `V` stands for a value and `L` for a list of values.
pub data Condition (V L : Type 0) : Type 0 where
  not_deleted : Condition V L
  compares : Test → Text → V → Condition V L
  one_of : Text → L → Condition V L
  in_range : Text → V → V → Condition V L
  matches : Text → V → Condition V L

-- In the text of the query a condition names its parameters.
abbrev pub Named : Type 0
Named = Condition Text Text

pub data Bound : Type 0 where
  scalar : FilterValue → Bound
  several : List FilterValue → Bound

-- One call of `andWhere`.
pub record Clause : Type 0 where
  pub condition : Named
  pub parameters : List (Text × Bound)

-- What `createQueryBuilder` has gathered when the rows are asked for.
pub record Query : Type 0 where
  pub clauses : List Clause
  pub order_by : List (Text × Direction)
  pub skipped : ℕ
  pub taken : ℕ

abbrev pub invalid_filter : Text → Exception
invalid_filter on = domain (
    invalid_input_exception validation_invalid_filter_value (lit "Invalid value for field: " ++ on)
      (one_field (lit "field") on))

-- `orderingOperators.includes(operator)`
abbrev pub is_ordering : Operator → Bool
is_ordering lt = true
is_ordering lte = true
is_ordering gt = true
is_ordering gte = true
is_ordering between = true
is_ordering _ = false

-- `kind === 'enum' || kind === 'boolean'`
abbrev pub is_unordered : ColumnKind → Bool
is_unordered enum = true
is_unordered boolean = true
is_unordered _ = false

abbrev pub is_text_kind : ColumnKind → Bool
is_text_kind text = true
is_text_kind _ = false

-- `value.replace(/[\\%_]/g, '\\$&')`
unfoldable pub escaped : Text → Text
escaped [] = []
escaped (c ∷ s) =
    let rest = escaped s in
    if c == b'\\' || c == b'%' || c == b'_' then b'\\' ∷ c ∷ rest else c ∷ rest

abbrev pub like_pattern : Text → Text
like_pattern value = b'%' ∷ escaped value ++ b'%' ∷ []

-- The name of the parameter: the field and the index of the criterion.
abbrev pub param_name : Text → ℕ → Text
param_name on param_index = on ++ b'_' ∷ digits param_index

module _ (parses_as_date : Text → Bool) where
  abbrev coerce : FilterableColumn → Text → Result FilterValue
  coerce = coerce_filter_value parses_as_date

  -- `parts.map((part) => coerceFilterValue(columnMeta, part))`
  unfoldable pub coerce_all : FilterableColumn → List Text → Result (List FilterValue)
  coerce_all column [] = ok []
  coerce_all column (part ∷ parts) = do
    value ← coerce column part
    values ← coerce_all column parts
    ok (value ∷ values)

  unfoldable pub compared : Test → FilterableColumn → Text → Text → Text → Result Clause
  compared test column on param value = do
    v ← coerce column value
    ok (record { condition = compares test on param; parameters = (param, scalar v) ∷ [] })

  -- The case `IN`, for the parts of the value.
  unfoldable pub listed : FilterableColumn → Text → Text → List Text → Result Clause
  unfolding coerce_all
  listed column on param parts = do
    throw_when (ltb max_in_values (length parts)) (invalid_filter on)
    vs ← coerce_all column parts
    ok (record { condition = one_of on param; parameters = (param, several vs) ∷ [] })

  -- The case `BETWEEN`.
  unfoldable pub ranged : FilterableColumn → Text → Text → List Text → Result Clause
  ranged column on param (first ∷ last ∷ []) = do
    a ← coerce column first
    b ← coerce column last
    ok (record {
      condition = in_range on (param ++ lit "From") (param ++ lit "To");
      parameters = (param ++ lit "From", scalar a) ∷ (param ++ lit "To", scalar b) ∷ [];
    })
  ranged column on param _ = err (invalid_filter on)

  -- The cases of the `switch`.
  unfoldable pub clause_for : Operator → FilterableColumn → Text → Text → Text → Result Clause
  unfolding compared listed ranged
  clause_for eq column on param value = compared equal column on param value
  clause_for neq column on param value = compared unequal column on param value
  clause_for lt column on param value = compared less column on param value
  clause_for lte column on param value = compared at_most column on param value
  clause_for gt column on param value = compared more column on param value
  clause_for gte column on param value = compared at_least column on param value
  clause_for is_in column on param value = listed column on param (split_on b',' value)
  clause_for between column on param value = ranged column on param (split_on b',' value)
  clause_for lk column on param value =
      if is_text_kind (kind_of column)
      then ok (record {
        condition = matches on param;
        parameters = (param, scalar (plain (like_pattern value))) ∷ [];
      })
      else err (invalid_filter on)

  unfoldable pub apply_filter : FilterCriterion → FilterableColumn → ℕ → Result Clause
  unfolding clause_for
  apply_filter criterion column param_index =
      throw_when (is_ordering criterion.operator && is_unordered (kind_of column))
        (invalid_filter criterion.on)
      >> clause_for criterion.operator column criterion.on (param_name criterion.on param_index)
          criterion.value

  -- The loop over the criteria: a field that is no column is passed over and takes no index.
  unfoldable pub apply_filters :
      (Text → Option FilterableColumn) → ℕ → List FilterCriterion → Result (List Clause)
  unfolding apply_filter
  apply_filters column_of param_index [] = ok []
  apply_filters column_of param_index (c ∷ cs) = elim (column_of c.on) [
    | none ↦ apply_filters column_of param_index cs
    | some column ↦ do
      clause ← apply_filter c column param_index
      rest ← apply_filters column_of (param_index + 1) cs
      ok (clause ∷ rest)
  ]
