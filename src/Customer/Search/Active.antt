-- ===== src/Customer/Search/Active.antt =====
-- Which customers a search finds.
use nest_order_api.Common.{
  ℕ, Text, lit, ◌≡◌, refl, sym, ap, ◌∙◌, Bool, true, not, none, some, is_some, All, All-weaken,
  List, [], ◌∷◌, map,
}
use nest_order_api.Auth.{RequestUser, can_activate}
use nest_order_api.Customer.Controller.{class_roles}
use nest_order_api.Customer.Entity.{Customer, CustomerResponse, customer_response}
use nest_order_api.Customer.Search.{search, handle_search}
use nest_order_api.Effects.{ok}
use nest_order_api.Fallible.{>>=-eq-ok, ok_same, guard_passed}
use nest_order_api.Order.Controller.{Reflector}
use nest_order_api.Search.Criteria.{FilterCriterion, parse_query_filters}
use nest_order_api.Search.Query.{not_deleted}
use nest_order_api.Search.Service.{
  Page, Repository, SearchRequest, number_of, column_named, is_valid_search_request, execute_search,
  to_page_response, map_all,
}
use nest_order_api.Search.Service.Asked.{all_split}
use nest_order_api.Search.Service.Found.{search_meets}
use nest_order_api.Search.Service.Laws.{RepositoryLaws}

-- The ORM's metadata have the column of the soft deletion, and it reads it as the database does.
pub record CustomerRepositoryLaws {Db : Type 0} (repo : Repository Db Customer) : Type 1 where
  pub laws : RepositoryLaws repo
  pub has_deleted_at : is_some (column_named repo.columns (lit "deletedAt")) ≡ true
  pub holds-not_deleted : (c : Customer) → laws.holds not_deleted c ≡ true → c.deleted_at ≡ none

map_all-ok :
    {T R : Type 0} (mapper : T → R) (xs : List T)
    → map_all (λ x. ok (mapper x)) xs ≡ ok (map mapper xs)
unfolding map_all
map_all-ok mapper [] = refl
map_all-ok mapper (x ∷ xs) = rw (map_all-ok mapper xs) refl

module _ (parses_as_date : Text → Bool) (max_size : ℕ) {Db : Type 0} (repo : Repository Db Customer)
    (customers : CustomerRepositoryLaws repo) where
  -- A search of customers that answers, answers with the customers that the search of its criteria
  -- found, one response for each in their order, and none of those is deleted, whatever filters, order
  -- and page are asked for.
  pub handle_search_active :
      (get_all_and_override : Reflector) (request_user : RequestUser) (dto : SearchRequest)
      (db : Db) (p : Page CustomerResponse)
      → handle_search parses_as_date max_size repo get_all_and_override request_user dto db ≡ ok p
      → (criteria : List FilterCriterion) × (found : Page Customer) × (parse_query_filters
            dto.filter
          ≡ ok criteria)
        × (search parses_as_date max_size repo criteria dto.sort dto.order
              (number_of dto.page)
              (number_of dto.size)
              db
            ≡ ok found)
        × (p.content ≡ map customer_response found.content)
        × All (λ c. c.deleted_at ≡ none) found.content
  unfolding handle_search execute_search search to_page_response
  handle_search_active get_all_and_override request_user dto db p h =
      let (_, _, h₁) =
        >>=-eq-ok (can_activate (get_all_and_override none class_roles) (some request_user)) _ h in
      let (_, h₂) = guard_passed (not (is_valid_search_request dto)) _ _ h₁ in
      let (criteria, parsed, h₃) = >>=-eq-ok (parse_query_filters dto.filter) _ h₂ in
      let page = number_of dto.page in
      let size = number_of dto.size in
      let (found, e, h₄) =
        >>=-eq-ok (search parses_as_date max_size repo criteria dto.sort dto.order page size db) _
          h₃ in
      let (content, mapped, h₅) =
        >>=-eq-ok (map_all (λ c. ok (customer_response c)) found.content) _ h₄ in
      let (ms, _, met) =
        search_meets repo customers.laws parses_as_date max_size criteria dto.sort dto.order page
          size db found e in
      (
        criteria,
        found,
        parsed,
        e,
        sym (ap (λ r. r.content) (ok_same h₅))
            ∙ ok_same (sym mapped ∙ map_all-ok customer_response found.content),
        All-weaken found.content
            (λ c meets.
              let (here, _) =
                all_split (λ m. customers.laws.holds m c) _ not_deleted ms customers.has_deleted_at
                  meets in
              customers.holds-not_deleted c here)
            met,
      )
