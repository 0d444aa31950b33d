-- ===== src/Examples/Searches.antt =====
-- Repositories over lists of rows, and searches on them.
use mathlib.Core.List.Perm
use nest_order_api.Common.{
  ℕ, ◌≡◌, refl, Bool-cases, All, map, Text, lit, text_eq, text_eq_iff, Bool, true, false, not,
  if◌then◌else◌, List, [], ◌∷◌, Option, none, some, is_some, length, take, drop, keep, keep-All,
  all, All-take, All-drop, Option-cases, inl, inr,
}
use nest_order_api.Customer.Entity.{Customer}
use nest_order_api.Customer.Search.Active.{CustomerRepositoryLaws}
use nest_order_api.Examples.Data.{order_of_alice}
use nest_order_api.Order.Entity.{Order}
use nest_order_api.Order.Search.{FoundOrder}
use nest_order_api.Order.Search.Scope.{OrderRepositoryLaws, created_by_column}
use nest_order_api.Order.Status.{status_text}
use nest_order_api.Search.Column.{FilterableColumn, named}
use nest_order_api.Search.Query.{equal, not_deleted, compares}
use nest_order_api.Search.Query.Meaning.{Meaning, all_parameters}
use nest_order_api.Search.Query.Refines.{meanings}
use nest_order_api.Search.Service.{Repository, column_named}
use nest_order_api.Search.Service.Laws.{RepositoryLaws}
use nest_order_api.Search.Value.{FilterValue, plain}

-- The row meets all conditions.
abbrev pub meets : {E : Type 0} → (Meaning → E → Bool) → List Meaning → E → Bool
meets holds ms e = all (λ m. holds m e) ms

abbrev answer :
    {E : Type 0} → (Meaning → E → Bool) → Option (List Meaning) → ℕ → ℕ → List E → List E × ℕ
answer holds none skipped taken rows = ([], 0)
answer holds (some ms) skipped taken rows =
    (take taken (drop skipped (keep (meets holds ms) rows)), length (keep (meets holds ms) rows))

-- A table whose rows stand in their order.
abbrev pub table :
    {E : Type 0} → List FilterableColumn → (Meaning → E → Bool) → Repository (List E) E
table columns holds = record {
  columns = columns;
  get_many_and_count =
      λ q rows. answer holds (meanings (all_parameters q.clauses) q.clauses) q.skipped q.taken rows;
}

pub table_laws :
    {E : Type 0} (columns : List FilterableColumn) (holds : Meaning → E → Bool)
    → RepositoryLaws (table columns holds)
table_laws columns holds = record {
  rows = λ db. db;
  holds = holds;
  ordered = λ keys xs. xs;
  ordered-All = λ P keys xs h. h;
  ordered-Perm = λ keys xs. Perm.refl xs;
  ordered-length = λ keys xs. refl;
  get_many_and_count_lem = λ q ms db e _ _. rw e refl;
  get_many_and_count_meets = λ q ms db e. rw e (
      All-take _ q.taken (drop q.skipped (keep (meets holds ms) db))
        (All-drop _ q.skipped (keep (meets holds ms) db) (keep-All (meets holds ms) db)));
}

abbrev deleted_at_column : FilterableColumn
deleted_at_column = record {
  property_name = lit "deletedAt";
  type_of = named (lit "timestamptz");
  values = none;
}

abbrev pub status_column : FilterableColumn
status_column = record {
  property_name = lit "status";
  type_of = named (lit "enum");
  values = some (lit "OPEN" ∷ lit "CONFIRMED" ∷ lit "CANCELED" ∷ []);
}

abbrev pub version_column : FilterableColumn
version_column = record {
  property_name = lit "version";
  type_of = named (lit "integer");
  values = none;
}

abbrev pub order_columns : List FilterableColumn
order_columns = created_by_column ∷ deleted_at_column ∷ status_column ∷ version_column ∷ []

abbrev pub is_plain : Text → FilterValue → Bool
is_plain t (plain s) = text_eq t s
is_plain t _ = false

-- Of an order: its owner, its status and whether it is deleted.
abbrev pub order_holds : Meaning → FoundOrder → Bool
order_holds not_deleted o = not (is_some o.order.deleted_at)
order_holds (compares equal on v) o =
    if text_eq on (lit "createdBy")
    then is_plain o.order.created_by v
    else if text_eq on (lit "status")
    then is_plain (status_text o.order.status) v
    else false
order_holds _ o = true

-- The rows that a query finds, none of them with its relations.
abbrev found_orders : List Order → List FoundOrder
found_orders = map (λ o. record { order = o; is_joined = false })

abbrev pub order_table : Repository (List Order) FoundOrder
order_table = record {
  columns = order_columns;
  get_many_and_count =
      λ q rows. (table order_columns order_holds).get_many_and_count q (found_orders rows);
}

found-All : (xs : List Order) → All (λ o. o.is_joined ≡ false) (found_orders xs)
found-All [] = tt
found-All (x ∷ xs) = (refl, found-All xs)

answer-All :
    (asked : Option (List Meaning)) (skipped taken : ℕ) (rows : List FoundOrder)
    → All (λ o. o.is_joined ≡ false) rows
    → All (λ o. o.is_joined ≡ false) (answer order_holds asked skipped taken rows).0
answer-All none skipped taken rows h = tt
answer-All (some ms) skipped taken rows h =
    All-take _ taken _ (All-drop _ skipped _ (kept _ rows h))
  where
    kept :
        (p : FoundOrder → Bool) (rows : List FoundOrder)
        → All (λ o. o.is_joined ≡ false) rows
        → All (λ o. o.is_joined ≡ false) (keep p rows)
    kept p [] h = tt
    kept p (x ∷ xs) (h, hs) = elim (Bool-cases (p x)) [
      | inl e ↦ rw e (h, kept p xs hs)
      | inr e ↦ rw e (kept p xs hs)
    ]

pub order_table_laws : OrderRepositoryLaws order_table
unfolding column_named text_eq table_laws
order_table_laws = record {
  laws = record {
    rows = found_orders;
    holds = order_holds;
    ordered = λ keys xs. xs;
    ordered-All = λ P keys xs h. h;
    ordered-Perm = λ keys xs. Perm.refl xs;
    ordered-length = λ keys xs. refl;
    get_many_and_count_lem =
        λ q ms db e f g. stored_laws.get_many_and_count_lem q ms (found_orders db) e f g;
    get_many_and_count_meets =
        λ q ms db e. stored_laws.get_many_and_count_meets q ms (found_orders db) e;
  };
  has_created_by = refl;
  has_deleted_at = refl;
  holds-created_by = λ o u h. (text_eq_iff o.order.created_by u).0 h;
  holds-not_deleted = λ o h. elim (Option-cases o.order.deleted_at) [
    | inl e ↦ e
    | inr (t, e) ↦ absurd (cc (rw e at h))
  ];
  joins_nothing = λ q db.
      answer-All (meanings (all_parameters q.clauses) q.clauses) q.skipped q.taken (found_orders db)
        (found-All db);
}
  where
    stored_laws : RepositoryLaws (table order_columns order_holds)
    stored_laws = table_laws order_columns order_holds

abbrev pub customer_table : Repository (List Customer) Customer
customer_table =
    table (deleted_at_column ∷ [])
      (λ m c. elim m [ not_deleted ↦ not (is_some c.deleted_at) | _ ↦ true ])

pub customer_table_laws : CustomerRepositoryLaws customer_table
unfolding column_named text_eq table_laws
customer_table_laws = record {
  laws = table_laws (deleted_at_column ∷ []) _;
  has_deleted_at = refl;
  holds-not_deleted =
      λ c h. elim (Option-cases c.deleted_at) [ inl e ↦ e | inr (t, e) ↦ absurd (cc (rw e at h)) ];
}

-- Bob's order, one of eve, and one that bob deleted.
abbrev owned_by : Text → Text → Option ℕ → Order
owned_by id user deleted = record order_of_alice {
  id = id;
  versioned = record order_of_alice.versioned {
    audit = record order_of_alice.versioned.audit { created_by = user; deleted_at = deleted };
  };
}

abbrev pub stored : List Order
stored =
    order_of_alice
    ∷ owned_by (lit "o2") (lit "eve") none
    ∷ owned_by (lit "o3") (lit "bob") (some 9)
    ∷ owned_by (lit "o4") (lit "bob") none
    ∷ []
