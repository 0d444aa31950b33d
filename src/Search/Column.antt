-- ===== src/Search/Column.antt =====
-- filter-value.ts, `kindOf`: what the search knows of a column.
use nest_order_api.Common.{
  Text, lit, text_eq, to_lower, Bool, List, [], ◌∷◌, Option, none, some, any, if◌then◌else◌,
}

-- `ColumnMetadata.type`: left out, a constructor, or the name of a database type.
pub data ColumnType : Type 0 where
  untyped number_class boolean_class date_class other_class : ColumnType
  named : Text → ColumnType

-- `enum` holds the values of an enumerated column.
pub record FilterableColumn : Type 0 where
  pub property_name : Text
  pub type_of : ColumnType
  pub values : Option (List Text)

pub data ColumnKind : Type 0 where
  uuid integer decimal boolean datetime enum text : ColumnKind

-- `set.has(name)`
abbrev pub is_one_of : List Text → Text → Bool
is_one_of names name = any (λ n. text_eq n name) names

abbrev pub integer_types : List Text
integer_types =
    lit "int"
    ∷ lit "integer"
    ∷ lit "smallint"
    ∷ lit "bigint"
    ∷ lit "int2"
    ∷ lit "int4"
    ∷ lit "int8"
    ∷ []

abbrev pub decimal_types : List Text
decimal_types =
    lit "decimal"
    ∷ lit "numeric"
    ∷ lit "float"
    ∷ lit "double"
    ∷ lit "double precision"
    ∷ lit "real"
    ∷ lit "float4"
    ∷ lit "float8"
    ∷ []

abbrev pub boolean_types : List Text
boolean_types = lit "boolean" ∷ lit "bool" ∷ []

abbrev pub date_types : List Text
date_types =
    lit "date"
    ∷ lit "timestamp"
    ∷ lit "timestamptz"
    ∷ lit "timestamp with time zone"
    ∷ lit "timestamp without time zone"
    ∷ []

unfoldable pub kind_of_name : Text → ColumnKind
kind_of_name name =
    if text_eq name (lit "uuid")
    then uuid
    else if is_one_of integer_types name
    then integer
    else if is_one_of decimal_types name
    then decimal
    else if is_one_of boolean_types name
    then boolean
    else if is_one_of date_types name
    then datetime
    else text

unfoldable pub kind_of_type : ColumnType → ColumnKind
unfolding kind_of_name
kind_of_type number_class = decimal
kind_of_type boolean_class = boolean
kind_of_type date_class = datetime
kind_of_type other_class = text
kind_of_type untyped = kind_of_name (lit "varchar")
kind_of_type (named name) = kind_of_name (to_lower name)

-- `column.enum && column.enum.length > 0`, with the values.
abbrev pub enumerated : Option (List Text) → Option (List Text)
enumerated none = none
enumerated (some []) = none
enumerated (some (v ∷ vs)) = some (v ∷ vs)

unfoldable pub kind_of : FilterableColumn → ColumnKind
unfolding kind_of_type
kind_of column = elim (enumerated column.values) [
  | some _ ↦ enum
  | none ↦ kind_of_type column.type_of
]
