-- ===== src/Customer/Search.antt =====
-- The search of customer.service.ts and its routes in customer.controller.ts.
pub mod Active
use nest_order_api.Common.{ℕ, Text, lit, Bool, true, false, not, List, Option, none, some}
use nest_order_api.Auth.{RequestUser, can_activate}
use nest_order_api.Customer.Controller.{class_roles}
use nest_order_api.Customer.Entity.{Customer, CustomerResponse, customer_response}
use nest_order_api.Effects.{Result, ok, err}
use nest_order_api.Errors.{Exception, http}
use nest_order_api.Fallible.{◌>>=◌, ◌>>◌, throw_when}
use nest_order_api.Order.Controller.{Reflector}
use nest_order_api.Search.Criteria.{FilterCriterion}
use nest_order_api.Search.Query.{Direction}
use nest_order_api.Search.Service as Search
use nest_order_api.Search.Service.{
  Page, Repository, SearchRequest, is_valid_search_request, execute_search,
}

module _ (parses_as_date : Text → Bool) (max_size : ℕ) {Db : Type 0}
    (repo : Repository Db Customer) where
  unfoldable pub search :
      List FilterCriterion → Option Text → Option Direction → ℕ → ℕ → Db → Result (Page Customer)
  unfolding Search.search
  search criteria sort order page size db =
      Search.search parses_as_date max_size repo criteria sort order page size db

  -- `searchByGetMethod` and `searchByPostMethod`: the routes behind the guard and the validation.
  unfoldable pub handle_search :
      Reflector → RequestUser → SearchRequest → Db → Result (Page CustomerResponse)
  unfolding search execute_search is_valid_search_request can_activate
  handle_search get_all_and_override request_user dto db = do
    can_activate (get_all_and_override none class_roles) (some request_user)
    throw_when (not (is_valid_search_request dto)) (http 400 (lit "Bad Request Exception"))
    execute_search dto (λ criteria sort order page size. search criteria sort order page size db)
        (λ c. ok (customer_response c))
