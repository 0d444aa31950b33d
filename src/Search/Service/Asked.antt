-- ===== src/Search/Service/Asked.antt =====
-- What a search makes of its arguments, and what it gets for that.
use nest_order_api.Common.{
  ℕ, ◌*◌, ◌≤◌, Text, lit, ◌≡◌, refl, sym, subst, Bool, true, false, List, [], ◌∷◌, ◌++◌, Option,
  none, some, is_some, length, take, drop, keep, keep-All, all, All, All-take, All-drop, ltb, arith,
  Bool-cases, Option-cases, inl, inr, if◌then◌else◌,
}
use nest_order_api.Effects.{ok}
use nest_order_api.Fallible.{>>=-eq-ok, ok_same, guard_passed}
use nest_order_api.Search.Column.{FilterableColumn}
use nest_order_api.Search.Criteria.{FilterCriterion, max_offset}
use nest_order_api.Search.Query.{Direction, not_deleted, Clause, Query, apply_filters}
use nest_order_api.Search.Query.Meaning.{Meaning, all_parameters, resolve}
use nest_order_api.Search.Query.Refines.{meanings}
use nest_order_api.Search.Service.{
  Repository, Page, page_of, total_pages, effective_size, column_named, given_sort, sorted_by,
  ordering, base_clauses, build_query, search,
}
use nest_order_api.Search.Service.Laws.{RepositoryLaws, NamesId}

-- The condition of every query.
abbrev pub base_meanings : List FilterableColumn → List Meaning
base_meanings columns =
    if is_some (column_named columns (lit "deletedAt")) then not_deleted ∷ [] else []

sorted_by-NamesId :
    (field : Text) (d : Option Direction) (keys : List (Text × Direction))
    → sorted_by field d ≡ ok keys
    → NamesId keys
sorted_by-NamesId field none keys h = absurd (cc)
sorted_by-NamesId field (some d) keys h = subst NamesId (ok_same h) (inr (inl refl))

pub ordering-NamesId :
    (columns : List FilterableColumn) (sort : Option Text) (d : Option Direction)
    (keys : List (Text × Direction))
    → ordering columns sort d ≡ ok keys
    → NamesId keys
unfolding ordering
ordering-NamesId columns sort d keys h = elim (Option-cases (given_sort sort)) [
  | inl e ↦ subst NamesId (ok_same (rw (e, ordering) at h)) (inl refl)
  | inr (field, e) ↦ elim (Bool-cases (is_some (column_named columns field))) [
    | inl f ↦ sorted_by-NamesId field d keys (rw (e, f, ordering) at h)
    | inr n ↦ absurd (cc (rw (e, n, ordering) at h))
  ]
]

pub meanings_base :
    (deletable : Bool) (clauses : List Clause) (ms : List Meaning)
    → meanings (all_parameters clauses) clauses ≡ some ms
    → meanings
        (all_parameters (
          (if deletable then record { condition = not_deleted; parameters = [] } ∷ [] else [])
          ++ clauses))
        ((if deletable then record { condition = not_deleted; parameters = [] } ∷ [] else [])
          ++ clauses)
      ≡ some ((if deletable then not_deleted ∷ [] else []) ++ ms)
unfolding meanings resolve
meanings_base true clauses ms h = rw h refl
meanings_base false clauses ms h = h

effective_size_positive :
    (max_size size : ℕ) → 1 ≤ max_size → 1 ≤ size → 1 ≤ effective_size max_size size
unfolding effective_size
effective_size_positive max_size size m s = ground (arith, m, s)

-- What meets the condition of every query and others meets each.
pub all_split :
    {A : Type 0} (p : A → Bool) (deletable : Bool) (x : A) (xs : List A)
    → deletable ≡ true
    → all p ((if deletable then x ∷ [] else []) ++ xs) ≡ true
    → (p x ≡ true) × (all p xs ≡ true)
all_split p true x xs e h = ground (arith, h)
all_split p false x xs e h = cc

module _ {Db E : Type 0} (repo : Repository Db E) (laws : RepositoryLaws repo) where
  -- The rows that meet the conditions.
  abbrev pub meeting : List Meaning → Db → List E
  meeting ms db = keep (λ e. all (λ m. laws.holds m e) ms) (laws.rows db)

  -- The page that lies after `skipped` rows of those that are found, in their order.
  pub record IsPage (ms : List Meaning) (keys : List (Text × Direction)) (number taken : ℕ)
      (db : Db) (p : Page E) : Type 0 where
    pub content_eq :
        p.content ≡ take taken (drop (number * taken) (laws.ordered keys (meeting ms db)))
    pub number_eq : p.page ≡ number
    pub size_eq : p.size ≡ taken
    pub total_eq : p.total_elements ≡ length (meeting ms db)
    pub pages_eq : p.total_pages ≡ total_pages (length (meeting ms db)) taken
    pub offset_bounded : number * taken ≤ max_offset

  -- Every row of a page meets the conditions.
  pub page_meets :
      (ms : List Meaning) (keys : List (Text × Direction)) (number taken : ℕ) (db : Db) (p : Page E)
      → IsPage ms keys number taken db p
      → All (λ e. all (λ m. laws.holds m e) ms ≡ true) p.content
  page_meets ms keys number taken db p found =
      let P = λ (e : E). all (λ m. laws.holds m e) ms ≡ true in
      subst (All P) (sym found.content_eq) (
        All-take P taken _ (
          All-drop P (number * taken) _ (
            laws.ordered-All P keys (meeting ms db)
              (keep-All (λ e. all (λ m. laws.holds m e) ms) (laws.rows db)))))

  -- The query of a page.
  abbrev asked : List Clause → List (Text × Direction) → ℕ → ℕ → Query
  asked clauses keys page taken = record {
    clauses = base_clauses repo.columns ++ clauses;
    order_by = keys;
    skipped = page * taken;
    taken = taken;
  }

  asked-IsPage :
      (clauses : List Clause) (keys : List (Text × Direction)) (ms : List Meaning) (page taken : ℕ)
      (db : Db)
      → meanings (all_parameters clauses) clauses ≡ some ms
      → NamesId keys
      → 1 ≤ taken
      → ltb max_offset (page * taken) ≡ false
      → IsPage
          (base_meanings repo.columns ++ ms)
          keys
          page
          taken
          db
          (page_of page taken (repo.get_many_and_count (asked clauses keys page taken) db))
  asked-IsPage clauses keys ms page taken db means named some_row fits =
      rw
        (laws.get_many_and_count_lem (asked clauses keys page taken)
          (base_meanings repo.columns ++ ms) db (meanings_base _ clauses ms means) named some_row)
        (record {
          content_eq = refl;
          number_eq = refl;
          size_eq = refl;
          total_eq = refl;
          pages_eq = refl;
          offset_bounded = ground (arith, fits);
        })

  module _ (parses_as_date : Text → Bool) (max_size : ℕ) (criteria : List FilterCriterion)
      (sort : Option Text) (order : Option Direction) where
    -- The filters and the order do not look at the page.
    pub record IsPrepared (clauses : List Clause) (keys : List (Text × Direction)) : Type 0 where
      pub filtered :
          apply_filters parses_as_date (column_named repo.columns) 0 criteria ≡ ok clauses
      pub sorted : ordering repo.columns sort order ≡ ok keys

    pub search-IsPrepared :
        (page size : ℕ) (db : Db) (p : Page E)
        → search parses_as_date max_size repo criteria sort order page size db ≡ ok p
        → (clauses : List Clause) × (keys : List (Text × Direction)) × IsPrepared clauses keys
    unfolding search build_query
    search-IsPrepared page size db p h =
        let (q, built, _) =
          >>=-eq-ok (build_query repo.columns parses_as_date max_size criteria sort order page size)
            _ h in
        let (clauses, e, h₁) =
          >>=-eq-ok (apply_filters parses_as_date (column_named repo.columns) 0 criteria) _ built in
        let (keys, f, _) = >>=-eq-ok (ordering repo.columns sort order) _ h₁ in
        (clauses, keys, record { filtered = e; sorted = f })

    pub search-IsPage :
        (clauses : List Clause) (keys : List (Text × Direction)) (ms : List Meaning) (page size : ℕ)
        (db : Db) (p : Page E)
        → IsPrepared clauses keys
        → meanings (all_parameters clauses) clauses ≡ some ms
        → 1 ≤ max_size
        → 1 ≤ size
        → search parses_as_date max_size repo criteria sort order page size db ≡ ok p
        → IsPage (base_meanings repo.columns ++ ms) keys page (effective_size max_size size) db p
    unfolding search build_query
    search-IsPage clauses keys ms page size db p prepared means m s h =
        let taken = effective_size max_size size in
        let (q, built, answered) =
          >>=-eq-ok (build_query repo.columns parses_as_date max_size criteria sort order page size)
            _ h in
        let (fits, made) =
          guard_passed (ltb max_offset (page * taken)) _ _
            (rw (prepared.filtered, prepared.sorted, build_query) at built) in
        let goal = λ (r : Page E). IsPage (base_meanings repo.columns ++ ms) keys page taken db r in
        subst goal (ok_same answered) (
          subst (λ r. goal (page_of page taken (repo.get_many_and_count r db))) (ok_same made)
            (asked-IsPage clauses keys ms page taken db means
              (ordering-NamesId repo.columns sort order keys prepared.sorted)
              (effective_size_positive max_size size m s) fits))
