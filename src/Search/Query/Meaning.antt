-- ===== src/Search/Query/Meaning.antt =====
-- What a query says: its conditions with the values that its parameters have.
use nest_order_api.Common.{
  Text, ◌++◌, ◌≤◌, ◌≡◌, text_eq, split_on, Bool, false, ◌&&◌, List, [], ◌∷◌, Option, none, some,
  length, if◌then◌else◌,
}
use nest_order_api.Effects.{ok}
use nest_order_api.Search.Column.{FilterableColumn, kind_of, text}
use nest_order_api.Search.Criteria.{
  Operator, eq, neq, lt, lte, gt, gte, is_in, between, lk, FilterCriterion, max_in_values,
}
use nest_order_api.Search.Query.{
  Test, equal, unequal, less, at_most, more, at_least, Condition, not_deleted, compares, one_of,
  in_range, matches, Named, Bound, scalar, several, Clause, is_ordering, is_unordered, like_pattern,
}
use nest_order_api.Search.Value.{FilterValue, plain, coerce_filter_value}

-- A condition with its values.
abbrev pub Meaning : Type 0
Meaning = Condition FilterValue (List FilterValue)

abbrev pub Bindings : Type 0
Bindings = List (Text × Bound)

-- The parameters belong to the query, not to a condition: a later value of a name replaces it.
unfoldable pub value_of : Text → Bindings → Option Bound
value_of name [] = none
value_of name ((n, v) ∷ ps) = elim (value_of name ps) [
  | some w ↦ some w
  | none ↦ if text_eq n name then some v else none
]

abbrev pub all_parameters : List Clause → Bindings
all_parameters [] = []
all_parameters (c ∷ cs) = c.parameters ++ all_parameters cs

abbrev pub scalar_of : Option Bound → Option FilterValue
scalar_of (some (scalar v)) = some v
scalar_of _ = none

abbrev pub several_of : Option Bound → Option (List FilterValue)
several_of (some (several vs)) = some vs
several_of _ = none

abbrev pub lifted : {A B : Type 0} → (A → B) → Option A → Option B
lifted f none = none
lifted f (some a) = some (f a)

abbrev pub range_meaning : Text → Option FilterValue → Option FilterValue → Option Meaning
range_meaning on (some a) (some b) = some (in_range on a b)
range_meaning on _ _ = none

-- The condition with the values of its parameters, if they all have one of the right shape.
unfoldable pub resolve : Bindings → Named → Option Meaning
resolve ps not_deleted = some not_deleted
resolve ps (compares test on p) = lifted (compares test on) (scalar_of (value_of p ps))
resolve ps (one_of on p) = lifted (one_of on) (several_of (value_of p ps))
resolve ps (in_range on p q) =
    range_meaning on (scalar_of (value_of p ps)) (scalar_of (value_of q ps))
resolve ps (matches on p) = lifted (matches on) (scalar_of (value_of p ps))

-- The comparison that an operator of one value asks for.
abbrev pub test_of : Operator → Option Test
test_of eq = some equal
test_of neq = some unequal
test_of lt = some less
test_of lte = some at_most
test_of gt = some more
test_of gte = some at_least
test_of _ = none

module _ (parses_as_date : Text → Bool) where
  -- The values are those of the texts.
  abbrev pub Coerced : FilterableColumn → List Text → List FilterValue → Type 0
  Coerced column [] [] = Unit
  Coerced column (s ∷ ss) (v ∷ vs) =
      (coerce_filter_value parses_as_date column s ≡ ok v) × Coerced column ss vs
  Coerced column _ _ = ⊥

  -- The condition is what the criterion asks of the column, and the operator fits the column.
  abbrev pub Asks : FilterableColumn → FilterCriterion → Meaning → Type 0
  Asks column c not_deleted = ⊥
  Asks column c (compares test on v) =
      ((is_ordering c.operator && is_unordered (kind_of column)) ≡ false)
      × (test_of c.operator ≡ some test)
      × (on ≡ c.on)
      × (coerce_filter_value parses_as_date column c.value ≡ ok v)
  Asks column c (one_of on vs) =
      (c.operator ≡ is_in)
      × (on ≡ c.on)
      × (length (split_on b',' c.value) ≤ max_in_values)
      × Coerced column (split_on b',' c.value) vs
  Asks column c (in_range on a b) =
      (is_unordered (kind_of column) ≡ false)
      × (c.operator ≡ between)
      × (on ≡ c.on)
      × Coerced column (split_on b',' c.value) (a ∷ b ∷ [])
  Asks column c (matches on p) =
      (kind_of column ≡ text) × (c.operator ≡ lk) × (on ≡ c.on) × (p ≡ plain (like_pattern c.value))
