-- ===== src/Search/Service/Laws.antt =====
-- What the ORM documents of the query that the search builds.
use mathlib.Core.List.{Perm}
use nest_order_api.Common.{
  ◌≤◌, Text, lit, ◌≡◌, ◌⊎◌, Bool, true, List, [], ◌∷◌, some, length, take, drop, keep, all, All,
}
use nest_order_api.Search.Query.{Direction, Query}
use nest_order_api.Search.Query.Meaning.{Meaning, all_parameters}
use nest_order_api.Search.Query.Refines.{meanings}
use nest_order_api.Search.Service.{Repository}

-- The order has the identity as one of its keys, so no two rows are equal in it.
abbrev pub NamesId : List (Text × Direction) → Type 0
NamesId [] = ⊥
NamesId ((field, _) ∷ keys) = (field ≡ lit "id") ⊎ NamesId keys

-- `rows` are those of the entity's table, `holds` tells whether the database finds a condition true of
-- a row, and `ordered` is `ORDER BY`.
pub record RepositoryLaws {Db E : Type 0} (repo : Repository Db E) : Type 1 where
  pub rows : Db → List E
  pub holds : Meaning → E → Bool
  pub ordered : List (Text × Direction) → List E → List E
  pub ordered-All :
      (P : E → Type 0) (keys : List (Text × Direction)) (xs : List E)
      → All P xs
      → All P (ordered keys xs)
  pub ordered-Perm : (keys : List (Text × Direction)) (xs : List E) → Perm (ordered keys xs) xs
  pub ordered-length :
      (keys : List (Text × Direction)) (xs : List E) → length (ordered keys xs) ≡ length xs
  pub get_many_and_count_lem :
      (q : Query) (ms : List Meaning) (db : Db)
      → meanings (all_parameters q.clauses) q.clauses ≡ some ms
      → NamesId q.order_by
      → 1 ≤ q.taken
      → repo.get_many_and_count q db ≡ (
        take q.taken
            (drop q.skipped (ordered q.order_by (keep (λ e. all (λ m. holds m e) ms) (rows db)))),
        length (keep (λ e. all (λ m. holds m e) ms) (rows db)),
      )
  pub get_many_and_count_meets :
      (q : Query) (ms : List Meaning) (db : Db)
      → meanings (all_parameters q.clauses) q.clauses ≡ some ms
      → All (λ e. all (λ m. holds m e) ms ≡ true) (repo.get_many_and_count q db).0
