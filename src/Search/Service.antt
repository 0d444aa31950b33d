-- ===== src/Search/Service.antt =====
-- `search`, `executeSearch` and `parseBodyFilters` of search.service.ts, search-request.dto.ts and
-- page-response.util.ts. The repository is the ORM's.
pub mod Laws
pub mod Asked
pub mod Found
pub mod Pages
use nest_order_api.Common.{
  ℕ, zero, suc, ◌+◌, ◌*◌, ◌-◌, ◌/◌, Text, lit, text_eq, ◌++◌, Bool, true, false, List, [], ◌∷◌, map,
  Option, none, some, or_else, is_some, length, ltb, leb, ◌==◌, if◌then◌else◌,
}
use nest_order_api.Effects.{Result, ok, err}
use nest_order_api.Errors.{
  Exception, domain, other, invalid_input_exception, validation_invalid_sort_field,
  validation_constraint_violation,
}
use nest_order_api.Fallible.{◌>>=◌, ◌>>◌, throw_when}
use nest_order_api.Search.Column.{FilterableColumn}
use nest_order_api.Search.Criteria.{FilterCriterion, max_offset, parse_query_filters}
use nest_order_api.Search.Query.{Direction, asc, desc, Clause, not_deleted, Query, apply_filters}
use nest_order_api.Values.{Fields, one_field}

-- The body or the query string of a search, with the defaults in place of what was left out. `none`
-- is an `order`, a `page` or a `size` that was sent as `null`: the validation passes over it.
pub record SearchRequest : Type 0 where
  pub filter : Option Fields
  pub sort : Option Text
  pub order : Option Direction
  pub page : Option ℕ
  pub size : Option ℕ

-- `@Min(1)`; the other fields are of their types.
unfoldable pub is_valid_search_request : SearchRequest → Bool
is_valid_search_request dto = leb 1 (or_else dto.size 1)

-- `total_pages` is `none` where the division gives `Infinity`.
pub record Page (T : Type 0) : Type 0 where
  pub content : List T
  pub page : ℕ
  pub size : ℕ
  pub total_elements : ℕ
  pub total_pages : Option ℕ

-- What the search uses of a repository.
pub record Repository (Db E : Type 0) : Type 0 where
  pub columns : List FilterableColumn
  pub get_many_and_count : Query → Db → List E × ℕ

-- `columnsByName.get(name)`: of two columns with one name the later one stands in the map.
unfoldable pub column_named : List FilterableColumn → Text → Option FilterableColumn
column_named [] name = none
column_named (c ∷ cs) name = elim (column_named cs name) [
  | some d ↦ some d
  | none ↦ if text_eq c.property_name name then some c else none
]

abbrev pub invalid_sort_field : Text → Exception
invalid_sort_field sort = domain (
    invalid_input_exception validation_invalid_sort_field
      (lit "Sort field \"" ++ sort ++ lit "\" does not exist") (one_field (lit "field") sort))

abbrev pub page_too_large : Exception
page_too_large = domain (
    invalid_input_exception validation_constraint_violation (lit "page is too large")
      (one_field (lit "field") (lit "page")))

-- `if (sort)`: an empty text is none.
abbrev pub given_sort : Option Text → Option Text
given_sort none = none
given_sort (some []) = none
given_sort (some (c ∷ s)) = some (c ∷ s)

-- `Math.ceil(totalElements / effectiveSize) || 0`
unfoldable pub total_pages : ℕ → ℕ → Option ℕ
total_pages total zero = if total == 0 then some 0 else none
total_pages total (suc n) = some ((total + n) / suc n)

-- `Math.min(size, maxSize)`
unfoldable pub effective_size : ℕ → ℕ → ℕ
effective_size max_size size = if leb size max_size then size else max_size

-- What a property of `undefined` or `null` throws.
abbrev pub type_error : Exception
type_error = other (record { kind = none; status = none; status_code = none; code = none })

-- `order.toUpperCase()`, which throws on `null`.
abbrev pub sorted_by : Text → Option Direction → Result (List (Text × Direction))
sorted_by field none = err type_error
sorted_by field (some direction) = ok ((field, direction) ∷ (lit "id", asc) ∷ [])

module _ (columns : List FilterableColumn) where
  -- The order of the rows.
  unfoldable pub ordering : Option Text → Option Direction → Result (List (Text × Direction))
  unfolding column_named
  ordering sort order = elim (given_sort sort) [
    | none ↦ ok ((lit "id", asc) ∷ [])
    | some field ↦
        if is_some (column_named columns field)
        then sorted_by field order
        else err (invalid_sort_field field)
  ]

  -- The condition that every query of an entity with soft deletion has.
  abbrev pub base_clauses : List Clause
  base_clauses =
      if is_some (column_named columns (lit "deletedAt"))
      then record { condition = not_deleted; parameters = [] } ∷ []
      else []

  -- The query that is asked.
  unfoldable pub build_query :
      (Text → Bool)
      → ℕ
      → List FilterCriterion
      → Option Text
      → Option Direction
      → ℕ
      → ℕ
      → Result Query
  unfolding apply_filters column_named ordering effective_size
  build_query parses_as_date max_size criteria sort order page size = do
    clauses ← apply_filters parses_as_date (column_named columns) 0 criteria
    order_by ← ordering sort order
    let taken = effective_size max_size size
    throw_when (ltb max_offset (page * taken)) page_too_large
    ok (record {
      clauses = base_clauses ++ clauses;
      order_by = order_by;
      skipped = page * taken;
      taken = taken;
    })

abbrev pub page_of : {T : Type 0} → ℕ → ℕ → List T × ℕ → Page T
page_of page size (content, total) = record {
  content = content;
  page = page;
  size = size;
  total_elements = total;
  total_pages = total_pages total size;
}

module _ (parses_as_date : Text → Bool) (max_size : ℕ) {Db E : Type 0}
    (repo : Repository Db E) where
  unfoldable pub search :
      List FilterCriterion → Option Text → Option Direction → ℕ → ℕ → Db → Result (Page E)
  unfolding build_query
  search criteria sort order page size db = do
    query ← build_query repo.columns parses_as_date max_size criteria sort order page size
    ok (page_of page (effective_size max_size size) (repo.get_many_and_count query db))

-- `SearchFn`, asked of a database.
abbrev pub SearchFn : Type 0 → Type 0
SearchFn T = List FilterCriterion → Option Text → Option Direction → ℕ → ℕ → Result (Page T)

-- In the arithmetic of the search `null` is 0; as a page's number the response repeats it as 0 here.
abbrev pub number_of : Option ℕ → ℕ
number_of o = or_else o 0

-- `page.content.map(mapper)`, where the mapper can throw.
unfoldable pub map_all : {T R : Type 0} → (T → Result R) → List T → Result (List R)
map_all mapper [] = ok []
map_all mapper (x ∷ xs) = do y ← mapper x; ys ← map_all mapper xs; ok (y ∷ ys)

-- `toPageResponse`
unfoldable pub to_page_response : {T R : Type 0} → Page T → (T → Result R) → Result (Page R)
unfolding map_all
to_page_response p mapper = do
  content ← map_all mapper p.content
  ok (record {
    content = content;
    page = p.page;
    size = p.size;
    total_elements = p.total_elements;
    total_pages = p.total_pages;
  })

-- `executeSearch`, with `parseBodyFilters`
unfoldable pub execute_search :
    {T R : Type 0} → SearchRequest → SearchFn T → (T → Result R) → Result (Page R)
unfolding parse_query_filters to_page_response
execute_search dto search_fn mapper = do
  criteria ← parse_query_filters dto.filter
  page ← search_fn criteria dto.sort dto.order (number_of dto.page) (number_of dto.size)
  to_page_response page mapper
