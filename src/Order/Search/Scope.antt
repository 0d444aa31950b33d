-- ===== src/Order/Search/Scope.antt =====
-- Whose orders a search finds, and what its routes make of them.
use nest_order_api.Common.{
  ℕ, Text, lit, ◌++◌, ◌≡◌, refl, sym, subst, ◌≢◌, Bool, true, false, List, [], ◌∷◌, Option, none,
  some, is_some, all, All, All-weaken, arith, Option-cases, inl, inr, ap, ◌∙◌, text_eq, to_lower,
  lower_unit,
}
use nest_order_api.Audit.{
  Store, current_username, is_current_user_admin, is_system_context, intercept,
}
use nest_order_api.Auth.{RequestUser, can_activate}
use nest_order_api.Effects.{ok, err}
use nest_order_api.Fallible.{>>=-eq-ok, ok_same}
use nest_order_api.Money.{Decimal}
use nest_order_api.Order.Controller.{Reflector, class_roles}
use nest_order_api.Order.Search.{
  FoundOrder, from_found, scope_criteria_to_owner_if_needed, search, handle_search,
}
use nest_order_api.Search.Column.{FilterableColumn, named, kind_of, kind_of_type, kind_of_name}
use nest_order_api.Search.Criteria.{FilterCriterion, eq, parse_query_filters}
use nest_order_api.Search.Query.{
  equal, not_deleted, compares, one_of, in_range, matches, Direction, Query,
}
use nest_order_api.Search.Query.Meaning.{Meaning, Asks}
use nest_order_api.Search.Query.Refines.{known, AskAll}
use nest_order_api.Search.Service.{
  Page, Repository, SearchRequest, number_of, column_named, is_valid_search_request, execute_search,
  to_page_response, map_all, type_error, build_query,
}
use nest_order_api.Search.Service as Search
use nest_order_api.Search.Service.Asked.{all_split}
use nest_order_api.Search.Service.Found.{search_meets}
use nest_order_api.Search.Service.Laws.{RepositoryLaws}
use nest_order_api.Search.Value.{plain, coerce_filter_value, coerce_as}

-- auditable.base-entity.ts, `createdBy`
abbrev pub created_by_column : FilterableColumn
created_by_column = record {
  property_name = lit "createdBy";
  type_of = named (lit "varchar");
  values = none;
}

-- The ORM's metadata have the columns of the entity, and it compares them as the database does. A
-- query loads no relation that it does not join: `eager` is for the `find` methods only.
pub record OrderRepositoryLaws {Db : Type 0} (repo : Repository Db FoundOrder) : Type 1 where
  pub laws : RepositoryLaws repo
  pub has_created_by : column_named repo.columns (lit "createdBy") ≡ some created_by_column
  pub has_deleted_at : is_some (column_named repo.columns (lit "deletedAt")) ≡ true
  pub holds-created_by :
      (o : FoundOrder) (u : Text)
      → laws.holds (compares equal (lit "createdBy") (plain u)) o ≡ true
      → o.order.created_by ≡ u
  pub holds-not_deleted :
      (o : FoundOrder) → laws.holds not_deleted o ≡ true → o.order.deleted_at ≡ none
  pub joins_nothing :
      (q : Query) (db : Db) → All (λ o. o.is_joined ≡ false) (repo.get_many_and_count q db).0

created_by-text :
    (parses_as_date : Text → Bool) (u : Text)
    → coerce_filter_value parses_as_date created_by_column u ≡ ok (plain u)
unfolding coerce_filter_value coerce_as kind_of kind_of_type kind_of_name text_eq to_lower
    lower_unit
created_by-text d u = refl

-- What the condition that is added asks.
owner_asked :
    (parses_as_date : Text → Bool) (u : Text) (m : Meaning)
    → Asks parses_as_date created_by_column
        (record { on = lit "createdBy"; operator = eq; value = u })
        m
    → m ≡ compares equal (lit "createdBy") (plain u)
owner_asked d u not_deleted asked = elim asked [ ]
owner_asked d u (compares test on v) (_, t, f, c) =
    let same_test : equal ≡ test = cc in
    let same_value : plain u ≡ v = ok_same (sym (created_by-text d u) ∙ c) in
    rw (f, ← same_test, ← same_value) refl
owner_asked d u (one_of on vs) (e, _, _, _) = absurd (cc)
owner_asked d u (in_range on a b) (_, e, _, _) = absurd (cc)
owner_asked d u (matches on p) (_, e, _, _) = absurd (cc)

known-append :
    (column_of : Text → Option FilterableColumn) (cs : List FilterCriterion) (c : FilterCriterion)
    (column : FilterableColumn)
    → column_of c.on ≡ some column
    → known column_of (cs ++ c ∷ []) ≡ known column_of cs ++ (column, c) ∷ []
known-append column_of [] c column e = rw (e, known) refl
known-append column_of (d ∷ cs) c column e = elim (Option-cases (column_of d.on)) [
  | inl f ↦ rw (f, known) (known-append column_of cs c column e)
  | inr (other, f) ↦ rw (f, known) (ap (λ r. (other, d) ∷ r) (known-append column_of cs c column e))
]

-- The last criterion is asked as the others are.
AskAll-last :
    (parses_as_date : Text → Bool) (p : Meaning → Bool)
    (ks : List (FilterableColumn × FilterCriterion)) (column : FilterableColumn)
    (c : FilterCriterion) (ms : List Meaning)
    → AskAll parses_as_date (ks ++ (column, c) ∷ []) ms
    → all p ms ≡ true
    → (m : Meaning) × Asks parses_as_date column c m × (p m ≡ true)
AskAll-last d p [] column c [] none_asked h = elim none_asked [ ]
AskAll-last d p (k ∷ ks) column c [] none_asked h = elim none_asked [ ]
AskAll-last d p [] column c (m ∷ ms) (asked, _) h = (m, asked, ground (arith, h))
AskAll-last d p (k ∷ ks) column c (m ∷ ms) (_, asked) h =
    AskAll-last d p ks column c ms asked (ground (arith, h))

-- An order of the user, not deleted.
abbrev pub IsOwn : Text → FoundOrder → Type 0
IsOwn u o = (o.order.created_by ≡ u) × (o.order.deleted_at ≡ none)

module _ (parses_as_date : Text → Bool) (max_size : ℕ) {Db : Type 0}
    (repo : Repository Db FoundOrder) (orders : OrderRepositoryLaws repo) where
  -- The orders that a search finds for a user who is no administrator are the user's own and not
  -- deleted, whatever the criteria, the sort field and the page.
  pub search_scoped :
      (store : Store) (criteria : List FilterCriterion) (sort : Option Text)
      (order : Option Direction) (page size : ℕ) (db : Db) (p : Page FoundOrder)
      → is_system_context store ≡ false
      → is_current_user_admin store ≡ false
      → search parses_as_date max_size repo store criteria sort order page size db ≡ ok p
      → All (IsOwn (current_username store)) p.content
  unfolding search scope_criteria_to_owner_if_needed
  search_scoped store criteria sort order page size db p outside plain_user h =
      let mine : FilterCriterion = record {
        on = lit "createdBy";
        operator = eq;
        value = current_username store;
      } in
      let column_of = column_named repo.columns in
      let (ms, asked, met) =
        search_meets repo orders.laws parses_as_date max_size (criteria ++ mine ∷ []) sort order
          page size db p
          (rw (outside, plain_user, search, scope_criteria_to_owner_if_needed) at h) in
      let asked_last =
        subst (λ k. AskAll parses_as_date k ms)
          (known-append column_of criteria mine created_by_column orders.has_created_by) asked in
      All-weaken p.content
        (λ o meets.
          let (here, rest) =
            all_split (λ m. orders.laws.holds m o) _ not_deleted ms orders.has_deleted_at meets in
          let (m, a, t) =
            AskAll-last parses_as_date (λ m. orders.laws.holds m o) (known column_of criteria)
              created_by_column mine ms asked_last rest in
          let is = owner_asked parses_as_date (current_username store) m a in
          (
            orders.holds-created_by o (current_username store)
                (subst (λ k. orders.laws.holds k o ≡ true) is t),
            orders.holds-not_deleted o here,
          ))
        met

  search-unjoined :
      (store : Store) (criteria : List FilterCriterion) (sort : Option Text)
      (order : Option Direction) (page size : ℕ) (db : Db) (p : Page FoundOrder)
      → search parses_as_date max_size repo store criteria sort order page size db ≡ ok p
      → All (λ o. o.is_joined ≡ false) p.content
  unfolding search Search.search
  search-unjoined store criteria sort order page size db p h =
      let cs = scope_criteria_to_owner_if_needed store criteria in
      let (q, _, answered) =
        >>=-eq-ok (build_query repo.columns parses_as_date max_size cs sort order page size) _ h in
      subst (λ r. All (λ o. o.is_joined ≡ false) r.content) (ok_same answered)
        (orders.joins_nothing q db)

  first_throws :
      (dec : Decimal) (xs : List FoundOrder)
      → All (λ o. o.is_joined ≡ false) xs
      → xs ≢ []
      → map_all (from_found dec) xs ≡ err type_error
  unfolding map_all from_found
  first_throws dec [] _ some_order = absurd (some_order refl)
  first_throws dec (x ∷ xs) (unjoined, _) _ = rw (unjoined, from_found) refl

  -- Where the search behind an accepted request finds any order, its routes throw a TypeError, since
  -- the rows of the query come without their customer and items.
  pub handle_search_throws :
      (dec : Decimal) (get_all_and_override : Reflector) (request_user : RequestUser)
      (dto : SearchRequest) (db : Db) (criteria : List FilterCriterion) (found : Page FoundOrder)
      → can_activate (get_all_and_override none class_roles) (some request_user) ≡ ok true
      → is_valid_search_request dto ≡ true
      → parse_query_filters dto.filter ≡ ok criteria
      → search parses_as_date max_size repo
          (intercept (some request_user))
          criteria
          dto.sort
          dto.order
          (number_of dto.page)
          (number_of dto.size)
          db
        ≡ ok found
      → found.content ≢ []
      → handle_search parses_as_date max_size repo dec get_all_and_override request_user dto db
        ≡ err type_error
  unfolding handle_search execute_search to_page_response
  handle_search_throws dec get_all_and_override request_user dto db criteria found allowed valid
        parsed e some_order =
      let unjoined = search-unjoined _ criteria dto.sort dto.order _ _ db found e in
      rw (allowed, valid, parsed, e, first_throws dec found.content unjoined some_order) refl
