-- ===== src/Examples/SearchWitnesses.antt =====
-- Searches at which the theorems are applied.
use nest_order_api.Common.{
  ℕ, zero, suc, ◌≡◌, refl, ◌++◌, ◌<◌, Text, lit, text_eq, to_lower, lower_unit, split_on, Bool,
  true, false, List, [], ◌∷◌, none, some, take, drop, all, All, arith, map,
}
use nest_order_api.Auth.{can_activate}
use nest_order_api.Audit.{is_system_context, is_current_user_admin, current_username, intercept}
use nest_order_api.Customer.Entity.{Customer, CustomerResponse, customer_response}
use nest_order_api.Customer.Search as CustomerSearch
use nest_order_api.Customer.Search.Active.{handle_search_active}
use nest_order_api.Effects.{ok, err}
use nest_order_api.Examples.Data.{bob, handler_first, alice}
use nest_order_api.Examples.Memory.{exact_decimal}
use nest_order_api.Examples.Searches.{
  order_table, order_table_laws, customer_table, customer_table_laws, stored, order_columns,
}
use nest_order_api.Money.{digits}
use nest_order_api.Order.Entity.{Order}
use nest_order_api.Order.Search.{FoundOrder}
use nest_order_api.Order.Search as OrderSearch
use nest_order_api.Order.Search.Scope.{IsOwn, search_scoped, handle_search_throws}
use nest_order_api.Search.Column.{kind_of, kind_of_type, kind_of_name}
use nest_order_api.Search.Criteria.{FilterCriterion, eq, between, parse_query_filters}
use nest_order_api.Search.Criteria.Limits.{filter_of, parse_query_filters-filter_of}
use nest_order_api.Search.Query.{
  asc, desc, Direction, equal, compares, in_range, scalar, Clause, apply_filters,
}
use nest_order_api.Search.Query.Meaning.{Meaning, all_parameters, value_of}
use nest_order_api.Search.Query.Refines.{meanings, known, AskAll, apply_filters-AskAll}
use nest_order_api.Search.Service.Asked.{base_meanings, IsPage}
use nest_order_api.Search.Service.Found.{search-IsFound}
use nest_order_api.Search.Service.Laws.{NamesId}
use nest_order_api.Search.Service.{
  SearchRequest, is_valid_search_request, Page, type_error, search, column_named, effective_size,
  total_pages,
}
use nest_order_api.Search.Value.{plain, whole, coerce_filter_value}

abbrev no_date : Text → Bool
no_date s = false

abbrev by_status : FilterCriterion
by_status = record { on = lit "status"; operator = eq; value = lit "OPEN" }

abbrev by_nothing : FilterCriterion
by_nothing = record { on = lit "colour"; operator = eq; value = lit "red" }

abbrev of_two_versions : FilterCriterion
of_two_versions = record { on = lit "version"; operator = between; value = lit "1,-2" }

-- A range of versions, a field that is no column, and a status.
abbrev criteria : List FilterCriterion
criteria = of_two_versions ∷ by_nothing ∷ by_status ∷ []

abbrev clauses : List Clause
clauses =
    record {
      condition = in_range (lit "version") (lit "version_0From") (lit "version_0To");
      parameters =
          (lit "version_0From", scalar (whole false 1))
          ∷ (lit "version_0To", scalar (whole true 2))
          ∷ [];
    }
    ∷ record {
      condition = compares equal (lit "status") (lit "status_1");
      parameters = (lit "status_1", scalar (plain (lit "OPEN"))) ∷ [];
    }
    ∷ []

clauses_built : apply_filters no_date (column_named order_columns) 0 criteria ≡ ok clauses
unfolding apply_filters column_named text_eq to_lower lower_unit split_on kind_of kind_of_type
    kind_of_name coerce_filter_value digits
clauses_built = refl

apply_filters-AskAll_example :
    (ms : List Meaning) × (meanings (all_parameters clauses) clauses ≡ some ms)
    × AskAll no_date (known (column_named order_columns) criteria) ms
apply_filters-AskAll_example =
    apply_filters-AskAll no_date (column_named order_columns) criteria clauses clauses_built

-- The search for open orders, two on a page.
abbrev found : List Order → List FoundOrder
found = map (λ o. record { order = o; is_joined = false })

abbrev found_page : ℕ → List Order → Page FoundOrder
found_page k content = record {
  content = found content;
  page = k;
  size = 2;
  total_elements = 3;
  total_pages = some 2;
}

abbrev pages : ℕ → Page FoundOrder
pages zero = found_page 0 (take 2 stored)
pages (suc k) = found_page (suc k) (drop 3 stored)

searched :
    (k : ℕ)
    → k < 2
    → search no_date 100 order_table (by_status ∷ []) none (some asc) k 2 stored ≡ ok (pages k)
unfolding search apply_filters column_named text_eq to_lower lower_unit kind_of kind_of_type
    kind_of_name coerce_filter_value digits meanings total_pages value_of
searched zero h = refl
searched (suc zero) h = refl
searched (suc (suc k)) h = absurd (omega (arith, h))

search-IsFound_example :
    (ms : List Meaning) × (keys : List (Text × Direction)) × AskAll no_date
      (known (column_named order_columns) (by_status ∷ []))
      ms
    × NamesId keys
    × IsPage order_table order_table_laws.laws
        (base_meanings order_columns ++ ms)
        keys
        1
        (effective_size 100 2)
        stored
        (pages 1)
    × All
        (λ e. all (λ m. order_table_laws.laws.holds m e) (base_meanings order_columns ++ ms) ≡ true)
        (found (drop 3 stored))
search-IsFound_example =
    search-IsFound order_table order_table_laws.laws no_date 100 (by_status ∷ []) none (some asc) 1
      2 stored (pages 1) (omega arith) (omega arith) (searched 1 (omega arith))

abbrev request : SearchRequest
request = record {
  filter = some (filter_of (by_status ∷ []));
  sort = some (lit "version");
  order = some desc;
  page = some 0;
  size = some 5;
}

-- Bob finds his two orders that are not deleted, and not eve's.
abbrev bob_found : Page FoundOrder
bob_found = record {
  content = found (take 1 stored ++ drop 3 stored);
  page = 0;
  size = 5;
  total_elements = 2;
  total_pages = some 1;
}

bob_searched :
    OrderSearch.search no_date 100 order_table
      (intercept (some bob))
      (by_status ∷ [])
      (some (lit "version"))
      (some desc)
      0
      5
      stored
    ≡ ok bob_found
unfolding OrderSearch.search apply_filters column_named text_eq to_lower lower_unit kind_of
    kind_of_type kind_of_name coerce_filter_value digits is_system_context is_current_user_admin
    meanings total_pages value_of current_username intercept
bob_searched = refl

search_scoped_example : All (IsOwn (lit "bob")) bob_found.content
unfolding is_system_context is_current_user_admin current_username text_eq intercept
search_scoped_example =
    search_scoped no_date 100 order_table order_table_laws (intercept (some bob)) (by_status ∷ [])
      (some (lit "version")) (some desc) 0 5 stored bob_found refl refl bob_searched

handle_search_throws_example :
    OrderSearch.handle_search no_date 100 order_table exact_decimal handler_first bob request stored
    ≡ err type_error
unfolding can_activate is_valid_search_request text_eq
handle_search_throws_example =
    handle_search_throws no_date 100 order_table order_table_laws exact_decimal handler_first bob
      request stored (by_status ∷ []) bob_found refl refl
      (parse_query_filters-filter_of (by_status ∷ []) (refl, (tt, tt)) (omega arith)
        (omega arith, tt))
      bob_searched (λ e. cc)

abbrev alice_found : Page CustomerResponse
alice_found = record {
  content = customer_response alice ∷ [];
  page = 0;
  size = 5;
  total_elements = 1;
  total_pages = some 1;
}

handle_search_active_example :
    (criteria : List FilterCriterion) × (found : Page Customer) × (parse_query_filters none
      ≡ ok criteria)
    × (CustomerSearch.search no_date 100 customer_table criteria none (some desc) 0 5 (alice ∷ [])
        ≡ ok found)
    × (alice_found.content ≡ map customer_response found.content)
    × All (λ c. c.deleted_at ≡ none) found.content
unfolding CustomerSearch.handle_search parse_query_filters apply_filters column_named text_eq
    to_lower lower_unit kind_of kind_of_type kind_of_name coerce_filter_value meanings total_pages
handle_search_active_example =
    handle_search_active no_date 100 customer_table customer_table_laws handler_first bob
      (record request { filter = none; sort = none }) (alice ∷ []) alice_found refl

parse_query_filters-filter_of_example :
    parse_query_filters (some (filter_of (of_two_versions ∷ by_nothing ∷ [])))
    ≡ ok (of_two_versions ∷ by_nothing ∷ [])
parse_query_filters-filter_of_example =
    parse_query_filters-filter_of (of_two_versions ∷ by_nothing ∷ [])
      (refl, (((λ e. cc), tt), (refl, (tt, tt)))) (omega arith) (omega arith, (omega arith, tt))
