-- ===== src/Search/Query/Clauses.antt =====
-- What the clause of one criterion says.
use nest_order_api.Common.{
  text_eq_refl, text_ne, ℕ, Text, lit, ◌≡◌, ◌≢◌, refl, sym, ap, split_on, Bool, false, ◌&&◌, List,
  [], ◌∷◌, ◌++◌, some, length, ltb, arith, inl, inr, ◌⊎◌,
}
use nest_order_api.Effects.{ok}
use nest_order_api.Fallible.{>>=-eq-ok, ok_same, guard_passed}
use nest_order_api.Search.Column.{
  FilterableColumn, ColumnKind, uuid, integer, decimal, boolean, datetime, enum, text, kind_of,
}
use nest_order_api.Search.Criteria.{
  Operator, eq, neq, lt, lte, gt, gte, is_in, between, lk, FilterCriterion, max_in_values,
}
use nest_order_api.Search.Query.{
  Test, equal, unequal, less, at_most, more, at_least, not_deleted, compares, one_of, in_range,
  matches, Named, Bound, scalar, several, Clause, is_ordering, is_unordered, is_text_kind,
  like_pattern, param_name, coerce_all, compared, listed, ranged, clause_for, apply_filter,
}
use nest_order_api.Search.Query.Meaning.{
  Meaning, Bindings, value_of, scalar_of, several_of, lifted, resolve, test_of, Coerced, Asks,
}
use nest_order_api.Search.Query.Parameters.{
  index_of, index_of-param, index_of-from, index_of-to, from≢to, HaveIndex,
}
use nest_order_api.Search.Value.{FilterValue, plain, coerce_filter_value}

-- The parameters that a condition names have the index.
abbrev pub NamesIndex : ℕ → Named → Type 0
NamesIndex i not_deleted = Unit
NamesIndex i (compares _ _ p) = index_of p ≡ i
NamesIndex i (one_of _ p) = index_of p ≡ i
NamesIndex i (in_range _ p q) = (index_of p ≡ i) × (index_of q ≡ i)
NamesIndex i (matches _ p) = index_of p ≡ i

-- What the clause of one criterion says by itself.
pub record IsClauseOf (parses_as_date : Text → Bool) (c : FilterCriterion)
    (column : FilterableColumn) (i : ℕ) (clause : Clause) : Type 0 where
  pub says : Meaning
  pub resolved : resolve clause.parameters clause.condition ≡ some says
  pub asked : Asks parses_as_date column c says
  pub indexed : HaveIndex (λ j. j ≡ i) clause.parameters
  pub named : NamesIndex i clause.condition

text_kind_cases : (k : ColumnKind) → (k ≡ text) ⊎ (is_text_kind k ≡ false)
text_kind_cases text = inl refl
text_kind_cases uuid = inr refl
text_kind_cases integer = inr refl
text_kind_cases decimal = inr refl
text_kind_cases boolean = inr refl
text_kind_cases datetime = inr refl
text_kind_cases enum = inr refl

value_of_only : (p : Text) (v : Bound) → value_of p ((p, v) ∷ []) ≡ some v
unfolding value_of
value_of_only p v = rw (text_eq_refl p) refl

value_of_both :
    (p q : Text) (v w : Bound)
    → p ≢ q
    → (value_of p ((p, v) ∷ (q, w) ∷ []) ≡ some v) × (value_of q ((p, v) ∷ (q, w) ∷ []) ≡ some w)
unfolding value_of
value_of_both p q v w n = (
  rw (text_ne q p (λ e. n (sym e)), text_eq_refl p, value_of) refl,
  rw (text_eq_refl q, value_of) refl,
)

resolve_range :
    (ps : Bindings) (on p q : Text) (a b : FilterValue)
    → value_of p ps ≡ some (scalar a)
    → value_of q ps ≡ some (scalar b)
    → resolve ps (in_range on p q) ≡ some (in_range on a b)
unfolding resolve
resolve_range ps on p q a b h k = rw (h, k) refl

module _ (parses_as_date : Text → Bool) where
  coerce_all-Coerced :
      (column : FilterableColumn) (parts : List Text) (vs : List FilterValue)
      → coerce_all parses_as_date column parts ≡ ok vs
      → Coerced parses_as_date column parts vs
  unfolding coerce_all
  coerce_all-Coerced column [] [] h = tt
  coerce_all-Coerced column [] (v ∷ vs) h = absurd (let same : [] ≡ v ∷ vs = ok_same h in cc)
  coerce_all-Coerced column (part ∷ parts) vs h =
      let (v, e, h') = >>=-eq-ok (coerce_filter_value parses_as_date column part) _ h in
      let (rest, f, h'') = >>=-eq-ok (coerce_all parses_as_date column parts) _ h' in
      rw (← ok_same h'') (e, coerce_all-Coerced column parts rest f)

  module _ (c : FilterCriterion) (column : FilterableColumn) (i : ℕ) where
    abbrev Built : Clause → Type 0
    Built = IsClauseOf parses_as_date c column i

    compared-Built :
        (test : Test) (clause : Clause)
        → (is_ordering c.operator && is_unordered (kind_of column)) ≡ false
        → test_of c.operator ≡ some test
        → compared parses_as_date test column c.on (param_name c.on i) c.value ≡ ok clause
        → Built clause
    unfolding compared resolve
    compared-Built test clause fits asks h =
        let (v, e, h') = >>=-eq-ok (coerce_filter_value parses_as_date column c.value) _ h in
        rw (← ok_same h') (record {
          says = compares test c.on v;
          resolved =
              ap (λ o. lifted (compares test c.on) (scalar_of o))
                (value_of_only (param_name c.on i) (scalar v));
          asked = (fits, asks, refl, e);
          indexed = (index_of-param c.on i, tt);
          named = index_of-param c.on i;
        })

    listed-Built :
        (parts : List Text) (clause : Clause)
        → parts ≡ split_on b',' c.value
        → c.operator ≡ is_in
        → listed parses_as_date column c.on (param_name c.on i) parts ≡ ok clause
        → Built clause
    unfolding listed resolve
    listed-Built parts clause whole is h =
        let (few, h₁) = guard_passed (ltb max_in_values (length parts)) _ _ h in
        let (vs, e, h₂) = >>=-eq-ok (coerce_all parses_as_date column parts) _ h₁ in
        let asked = coerce_all-Coerced column parts vs e in
        rw (← ok_same h₂) (record {
          says = one_of c.on vs;
          resolved =
              ap (λ o. lifted (one_of c.on) (several_of o))
                (value_of_only (param_name c.on i) (several vs));
          asked = (is, refl, rw (← whole) (ground arith), rw (← whole) asked);
          indexed = (index_of-param c.on i, tt);
          named = index_of-param c.on i;
        })

    ranged-Built :
        (parts : List Text) (clause : Clause)
        → parts ≡ split_on b',' c.value
        → is_unordered (kind_of column) ≡ false
        → c.operator ≡ between
        → ranged parses_as_date column c.on (param_name c.on i) parts ≡ ok clause
        → Built clause
    unfolding ranged
    ranged-Built (s ∷ t ∷ []) clause whole fits is h =
        let name = param_name c.on i in
        let (a, e, h₁) = >>=-eq-ok (coerce_filter_value parses_as_date column s) _ h in
        let (b, f, h₂) = >>=-eq-ok (coerce_filter_value parses_as_date column t) _ h₁ in
        let both =
          value_of_both (name ++ lit "From") (name ++ lit "To") (scalar a) (scalar b)
            (from≢to name) in
        rw (← ok_same h₂) (record {
          says = in_range c.on a b;
          resolved = resolve_range _ c.on _ _ a b both.0 both.1;
          asked = (fits, is, refl, rw (← whole) (e, (f, tt)));
          indexed = (index_of-from c.on i, (index_of-to c.on i, tt));
          named = (index_of-from c.on i, index_of-to c.on i);
        })
    ranged-Built [] clause whole fits is h = absurd (cc)
    ranged-Built (_ ∷ []) clause whole fits is h = absurd (cc)
    ranged-Built (_ ∷ _ ∷ _ ∷ _) clause whole fits is h = absurd (cc)

    matched-Built :
        (clause : Clause)
        → c.operator ≡ lk
        → clause_for parses_as_date lk column c.on (param_name c.on i) c.value ≡ ok clause
        → Built clause
    unfolding clause_for resolve
    matched-Built clause is h = elim (text_kind_cases (kind_of column)) [
      | inl kind ↦ rw (← ok_same (rw kind at h)) (record {
        says = matches c.on (plain (like_pattern c.value));
        resolved =
            ap (λ o. lifted (matches c.on) (scalar_of o))
              (value_of_only (param_name c.on i) (scalar (plain (like_pattern c.value))));
        asked = (kind, is, refl, refl);
        indexed = (index_of-param c.on i, tt);
        named = index_of-param c.on i;
      })
      | inr other ↦ absurd (cc (rw other at h))
    ]

  -- The operator that is applied to its column.
  clause_for-Built :
      (operator : Operator) (c : FilterCriterion) (column : FilterableColumn) (i : ℕ)
      (clause : Clause)
      → operator ≡ c.operator
      → (is_ordering operator && is_unordered (kind_of column)) ≡ false
      → clause_for parses_as_date operator column c.on (param_name c.on i) c.value ≡ ok clause
      → IsClauseOf parses_as_date c column i clause
  unfolding clause_for
  clause_for-Built eq c column i clause is fits h =
      compared-Built c column i equal clause (rw (← is) fits) (rw (← is) refl) h
  clause_for-Built neq c column i clause is fits h =
      compared-Built c column i unequal clause (rw (← is) fits) (rw (← is) refl) h
  clause_for-Built lt c column i clause is fits h =
      compared-Built c column i less clause (rw (← is) fits) (rw (← is) refl) h
  clause_for-Built lte c column i clause is fits h =
      compared-Built c column i at_most clause (rw (← is) fits) (rw (← is) refl) h
  clause_for-Built gt c column i clause is fits h =
      compared-Built c column i more clause (rw (← is) fits) (rw (← is) refl) h
  clause_for-Built gte c column i clause is fits h =
      compared-Built c column i at_least clause (rw (← is) fits) (rw (← is) refl) h
  clause_for-Built is_in c column i clause is fits h =
      listed-Built c column i _ clause refl (sym is) h
  clause_for-Built between c column i clause is fits h =
      ranged-Built c column i _ clause refl fits (sym is) h
  clause_for-Built lk c column i clause is fits h = matched-Built c column i clause (sym is) h

  pub apply_filter-IsClauseOf :
      (c : FilterCriterion) (column : FilterableColumn) (i : ℕ) (clause : Clause)
      → apply_filter parses_as_date c column i ≡ ok clause
      → IsClauseOf parses_as_date c column i clause
  unfolding apply_filter
  apply_filter-IsClauseOf c column i clause h =
      let (fits, built) =
        guard_passed (is_ordering c.operator && is_unordered (kind_of column)) _ _ h in
      clause_for-Built c.operator c column i clause refl fits built
