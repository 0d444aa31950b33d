-- ===== src/Order/Search.antt =====
-- The search of order.service.ts and its routes in order.controller.ts.
pub mod Scope
use nest_order_api.Common.{
  ℕ, Text, lit, ◌++◌, Bool, true, false, not, ◌||◌, List, [], ◌∷◌, Option, none, some,
  if◌then◌else◌,
}
use nest_order_api.Audit.{
  Store, current_username, is_current_user_admin, is_system_context, intercept,
}
use nest_order_api.Auth.{RequestUser, can_activate}
use nest_order_api.Effects.{Result, ok, err}
use nest_order_api.Errors.{Exception, http}
use nest_order_api.Fallible.{◌>>=◌, ◌>>◌, throw_when}
use nest_order_api.Money.{Decimal}
use nest_order_api.Order.Controller.{Reflector, class_roles}
use nest_order_api.Order.Entity.{Order, OrderResponse, order_response}
use nest_order_api.Search.Criteria.{FilterCriterion, eq}
use nest_order_api.Search.Query.{Direction}
use nest_order_api.Search.Service as Search
use nest_order_api.Search.Service.{
  Page, Repository, SearchRequest, is_valid_search_request, execute_search, type_error,
}

-- `scopeCriteriaToOwnerIfNeeded`
unfoldable pub scope_criteria_to_owner_if_needed :
    Store → List FilterCriterion → List FilterCriterion
scope_criteria_to_owner_if_needed store criteria =
    if is_system_context store || is_current_user_admin store
    then criteria
    else criteria
      ++ record { on = lit "createdBy"; operator = eq; value = current_username store } ∷ []

-- An order as a query gives it. Its customer and its items are there only if the query joined them:
-- `eager` holds for the `find` methods.
pub record FoundOrder : Type 0 where
  pub order : Order
  pub is_joined : Bool

-- `OrderResponseDto.from`, which reads `order.customer.id` and maps `order.items`.
unfoldable pub from_found : Decimal → FoundOrder → Result OrderResponse
from_found dec found =
    if found.is_joined then ok (order_response dec found.order) else err type_error

module _ (parses_as_date : Text → Bool) (max_size : ℕ) {Db : Type 0}
    (repo : Repository Db FoundOrder) where
  unfoldable pub search :
      Store
      → List FilterCriterion
      → Option Text
      → Option Direction
      → ℕ
      → ℕ
      → Db
      → Result (Page FoundOrder)
  unfolding Search.search scope_criteria_to_owner_if_needed
  search store criteria sort order page size db =
      Search.search parses_as_date max_size repo (scope_criteria_to_owner_if_needed store criteria)
        sort order page size db

  -- `searchByGetMethod` and `searchByPostMethod`: the routes behind the guard and the validation.
  unfoldable pub handle_search :
      Decimal → Reflector → RequestUser → SearchRequest → Db → Result (Page OrderResponse)
  unfolding search execute_search from_found is_valid_search_request can_activate intercept
  handle_search dec get_all_and_override request_user dto db = do
    can_activate (get_all_and_override none class_roles) (some request_user)
    throw_when (not (is_valid_search_request dto)) (http 400 (lit "Bad Request Exception"))
    execute_search dto
        (λ criteria sort order page size.
          search (intercept (some request_user)) criteria sort order page size db)
        (from_found dec)
