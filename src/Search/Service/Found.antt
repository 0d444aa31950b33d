-- ===== src/Search/Service/Found.antt =====
-- What a search that succeeds returns.
use nest_order_api.Common.{
  ℕ, ◌*◌, ◌≤◌, Text, ◌≡◌, subst, Bool, true, List, ◌++◌, Option, some, all, All, ltb,
}
use nest_order_api.Effects.{ok}
use nest_order_api.Fallible.{>>=-eq-ok, ok_same, guard_passed}
use nest_order_api.Search.Criteria.{FilterCriterion, max_offset}
use nest_order_api.Search.Query.{Direction, apply_filters}
use nest_order_api.Search.Query.Meaning.{Meaning, all_parameters}
use nest_order_api.Search.Query.Refines.{meanings, known, AskAll, apply_filters-AskAll}
use nest_order_api.Search.Service.{
  Repository, Page, effective_size, column_named, ordering, build_query, search,
}
use nest_order_api.Search.Service.Laws.{RepositoryLaws, NamesId}
use nest_order_api.Search.Service.Asked.{
  base_meanings, meanings_base, IsPage, page_meets, search-IsPrepared, search-IsPage,
  ordering-NamesId,
}

module _ {Db E : Type 0} (repo : Repository Db E) (laws : RepositoryLaws repo)
    (parses_as_date : Text → Bool) (max_size : ℕ) (criteria : List FilterCriterion)
    (sort : Option Text) (order : Option Direction) where
  -- A search that succeeds returns the page, of the rows that are not deleted and meet what each
  -- criterion on a column asks, in an order that leaves no two rows equal; the other criteria do not
  -- count.
  pub search-IsFound :
      (page size : ℕ) (db : Db) (p : Page E)
      → 1 ≤ max_size
      → 1 ≤ size
      → search parses_as_date max_size repo criteria sort order page size db ≡ ok p
      → (ms : List Meaning) × (keys : List (Text × Direction)) × AskAll parses_as_date
          (known (column_named repo.columns) criteria)
          ms
        × NamesId keys
        × IsPage repo laws
            (base_meanings repo.columns ++ ms)
            keys
            page
            (effective_size max_size size)
            db
            p
        × All (λ e. all (λ m. laws.holds m e) (base_meanings repo.columns ++ ms) ≡ true) p.content
  search-IsFound page size db p m s h =
      let (clauses, keys, prepared) =
        search-IsPrepared repo laws parses_as_date max_size criteria sort order page size db p h in
      let (ms, means, asked) =
        apply_filters-AskAll parses_as_date (column_named repo.columns) criteria clauses
          prepared.filtered in
      let found =
        search-IsPage repo laws parses_as_date max_size criteria sort order clauses keys ms page
          size db p prepared means m s h in
      (
        ms,
        keys,
        asked,
        ordering-NamesId repo.columns sort order keys prepared.sorted,
        found,
        page_meets repo laws _ keys page (effective_size max_size size) db p found,
      )

  -- Whatever the size, even none, the rows of a page meet the conditions.
  pub search_meets :
      (page size : ℕ) (db : Db) (p : Page E)
      → search parses_as_date max_size repo criteria sort order page size db ≡ ok p
      → (ms : List Meaning) × AskAll parses_as_date (known (column_named repo.columns) criteria) ms
        × All (λ e. all (λ m. laws.holds m e) (base_meanings repo.columns ++ ms) ≡ true) p.content
  unfolding search build_query
  search_meets page size db p h =
      let taken = effective_size max_size size in
      let (q, built, answered) =
        >>=-eq-ok (build_query repo.columns parses_as_date max_size criteria sort order page size) _
          h in
      let (clauses, e, h₁) =
        >>=-eq-ok (apply_filters parses_as_date (column_named repo.columns) 0 criteria) _ built in
      let (keys, f, h₂) = >>=-eq-ok (ordering repo.columns sort order) _ h₁ in
      let (fits, made) = guard_passed (ltb max_offset (page * taken)) _ _ h₂ in
      let (ms, means, asked) =
        apply_filters-AskAll parses_as_date (column_named repo.columns) criteria clauses e in
      let ask = base_meanings repo.columns ++ ms in
      (
        ms,
        asked,
        subst (λ r. All (λ e. all (λ m. laws.holds m e) ask ≡ true) r.content) (ok_same answered)
            (laws.get_many_and_count_meets q ask db (
              subst (λ r. meanings (all_parameters r.clauses) r.clauses ≡ some ask) (ok_same made)
                (meanings_base _ clauses ms means))),
      )
