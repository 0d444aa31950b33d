-- ===== src/Search/Query/Refines.antt =====
-- The query that is built says what the criteria ask.
use nest_order_api.Common.{
  ℕ, ◌+◌, ◌≤◌, ◌<◌, Text, ◌≡◌, refl, sym, ◌∙◌, subst, Bool, List, [], ◌∷◌, ◌++◌, Option, none, some,
  All-append, arith, Option-cases, inl, inr,
}
use mathlib.Core.List.{append_assoc}
use nest_order_api.Effects.{ok}
use nest_order_api.Fallible.{>>=-eq-ok, ok_same}
use nest_order_api.Search.Column.{FilterableColumn}
use nest_order_api.Search.Criteria.{FilterCriterion}
use nest_order_api.Search.Query.{
  not_deleted, compares, one_of, in_range, matches, Named, Clause, apply_filter, apply_filters,
}
use nest_order_api.Search.Query.Meaning.{Meaning, Bindings, value_of, all_parameters, resolve, Asks}
use nest_order_api.Search.Query.Parameters.{index_of, HaveIndex, value_of-absent, value_of-append}
use nest_order_api.Search.Query.Clauses.{IsClauseOf, NamesIndex, apply_filter-IsClauseOf}

resolve_agree :
    (ps qs : Bindings) (i : ℕ) (c : Named)
    → NamesIndex i c
    → ((name : Text) → index_of name ≡ i → value_of name ps ≡ value_of name qs)
    → resolve ps c ≡ resolve qs c
unfolding resolve
resolve_agree ps qs i not_deleted h k = refl
resolve_agree ps qs i (compares test on p) h k = rw (k p h) refl
resolve_agree ps qs i (one_of on p) h k = rw (k p h) refl
resolve_agree ps qs i (in_range on p q) (h, h') k = rw (k p h, k q h') refl
resolve_agree ps qs i (matches on p) h k = rw (k p h) refl

-- The criteria on fields that are columns, with their columns.
abbrev pub known :
    (Text → Option FilterableColumn)
    → List FilterCriterion
    → List (FilterableColumn × FilterCriterion)
known column_of [] = []
known column_of (c ∷ cs) = elim (column_of c.on) [
  | none ↦ known column_of cs
  | some column ↦ (column, c) ∷ known column_of cs
]

known_skip :
    (column_of : Text → Option FilterableColumn) (c : FilterCriterion) (cs : List FilterCriterion)
    → column_of c.on ≡ none
    → known column_of (c ∷ cs) ≡ known column_of cs
known_skip column_of c cs e = rw (e, known) refl

known_step :
    (column_of : Text → Option FilterableColumn) (c : FilterCriterion) (cs : List FilterCriterion)
    (column : FilterableColumn)
    → column_of c.on ≡ some column
    → known column_of (c ∷ cs) ≡ (column, c) ∷ known column_of cs
known_step column_of c cs column e = rw (e, known) refl

-- Each condition is what its criterion asks.
abbrev pub AskAll :
    (Text → Bool) → List (FilterableColumn × FilterCriterion) → List Meaning → Type 0
AskAll parses_as_date [] [] = Unit
AskAll parses_as_date ((column, c) ∷ cs) (m ∷ ms) =
    Asks parses_as_date column c m × AskAll parses_as_date cs ms
AskAll parses_as_date _ _ = ⊥

abbrev pub and_then : Option Meaning → Option (List Meaning) → Option (List Meaning)
and_then (some m) (some ms) = some (m ∷ ms)
and_then _ _ = none

-- What the conditions say with the parameters of the whole query.
unfoldable pub meanings : Bindings → List Clause → Option (List Meaning)
unfolding resolve
meanings ps [] = some []
meanings ps (c ∷ cs) = and_then (resolve ps c.condition) (meanings ps cs)

index_weaken :
    (P Q : ℕ → Type 0) (ps : Bindings) → ((i : ℕ) → P i → Q i) → HaveIndex P ps → HaveIndex Q ps
index_weaken P Q [] w h = tt
index_weaken P Q (b ∷ ps) w (p, h) = (w (index_of b.0) p, index_weaken P Q ps w h)

-- Between the parameters of the criteria before and after it, a criterion finds its own.
value_of_own :
    (i : ℕ) (before own later : Bindings)
    → HaveIndex (λ j. j < i) before
    → HaveIndex (λ j. i + 1 ≤ j) later
    → (name : Text) → index_of name ≡ i
    → value_of name (before ++ (own ++ later)) ≡ value_of name own
value_of_own i before own later h k name e =
    let first = value_of-absent (λ j. j < i) name before h (λ l. omega (arith, e, l)) in
    let last = value_of-absent (λ j. i + 1 ≤ j) name later k (λ l. omega (arith, e, l)) in
    value_of-append name before (own ++ later)
    ∙ rw (value_of-append name own later, first, last)
        (elim (Option-cases (value_of name own)) [ inl f ↦ rw f refl | inr (v, f) ↦ rw f refl ])

module _ (parses_as_date : Text → Bool) (column_of : Text → Option FilterableColumn) where
  record IsBuilt (i : ℕ) (cs : List FilterCriterion) (clauses : List Clause) : Type 0 where
    later : HaveIndex (λ j. i ≤ j) (all_parameters clauses)
    says :
        (before : Bindings)
        → HaveIndex (λ j. j < i) before
        → (ms : List Meaning) × (meanings (before ++ all_parameters clauses) clauses ≡ some ms)
          × AskAll parses_as_date (known column_of cs) ms

  IsBuilt-skip :
      (i : ℕ) (c : FilterCriterion) (cs : List FilterCriterion) (clauses : List Clause)
      → column_of c.on ≡ none
      → IsBuilt i cs clauses
      → IsBuilt i (c ∷ cs) clauses
  IsBuilt-skip i c cs clauses e b = record {
    later = b.later;
    says = λ before h.
        let (ms, f, asked) = b.says before h in
        (ms, f, subst (λ k. AskAll parses_as_date k ms) (sym (known_skip column_of c cs e)) asked);
  }

  IsBuilt-step :
      (i : ℕ) (c : FilterCriterion) (cs : List FilterCriterion) (column : FilterableColumn)
      (clause : Clause) (rest : List Clause)
      → column_of c.on ≡ some column
      → IsClauseOf parses_as_date c column i clause
      → IsBuilt (i + 1) cs rest
      → IsBuilt i (c ∷ cs) (clause ∷ rest)
  unfolding meanings
  IsBuilt-step i c cs column clause rest e own next = record {
    later =
        All-append _ clause.parameters (all_parameters rest)
          (index_weaken (λ j. j ≡ i) (λ j. i ≤ j) clause.parameters (λ j f. omega (arith, f))
            own.indexed)
          (index_weaken (λ j. i + 1 ≤ j) (λ j. i ≤ j) (all_parameters rest)
            (λ j l. omega (arith, l)) next.later);
    says = λ before h.
        let mine = clause.parameters in
        let earlier : HaveIndex (λ j. j < i + 1) (before ++ mine) =
          All-append _ before mine
            (index_weaken (λ j. j < i) (λ j. j < i + 1) before (λ j l. omega (arith, l)) h)
            (index_weaken (λ j. j ≡ i) (λ j. j < i + 1) mine (λ j f. omega (arith, f))
              own.indexed) in
        let (ms, f, asked) = next.says (before ++ mine) earlier in
        let here =
          resolve_agree (before ++ (mine ++ all_parameters rest)) mine i clause.condition own.named
            (value_of_own i before mine (all_parameters rest) h next.later)
          ∙ own.resolved in
        let there = rw (append_assoc before mine (all_parameters rest)) at f in
        (
          own.says ∷ ms,
          rw (here, there) refl,
          subst (λ k. AskAll parses_as_date k (own.says ∷ ms))
              (sym (known_step column_of c cs column e)) (own.asked, asked),
        );
  }

  apply_filters-IsBuilt :
      (i : ℕ) (cs : List FilterCriterion) (clauses : List Clause)
      → apply_filters parses_as_date column_of i cs ≡ ok clauses
      → IsBuilt i cs clauses
  unfolding apply_filters meanings
  apply_filters-IsBuilt i [] clauses h =
      rw (← ok_same h) (record { later = tt; says = λ before l. ([], refl, tt) })
  apply_filters-IsBuilt i (c ∷ cs) clauses h = elim (Option-cases (column_of c.on)) [
    | inl e ↦
        IsBuilt-skip i c cs clauses e
          (apply_filters-IsBuilt i cs clauses (rw (e, apply_filters) at h))
    | inr (column, e) ↦
        let h₀ = rw (e, apply_filters) at h in
        let (clause, f, h₁) = >>=-eq-ok (apply_filter parses_as_date c column i) _ h₀ in
        let (rest, g, h₂) = >>=-eq-ok (apply_filters parses_as_date column_of (i + 1) cs) _ h₁ in
        rw (← ok_same h₂) (
          IsBuilt-step i c cs column clause rest e
            (apply_filter-IsClauseOf parses_as_date c column i clause f)
            (apply_filters-IsBuilt (i + 1) cs rest g))
  ]

  -- If the filters are applied, then each condition of the query reads the values of its own criterion
  -- from the parameters of the whole query, and the conditions are, in order, what the criteria on
  -- columns ask; the other criteria ask nothing.
  pub apply_filters-AskAll :
      (cs : List FilterCriterion) (clauses : List Clause)
      → apply_filters parses_as_date column_of 0 cs ≡ ok clauses
      → (ms : List Meaning) × (meanings (all_parameters clauses) clauses ≡ some ms)
        × AskAll parses_as_date (known column_of cs) ms
  apply_filters-AskAll cs clauses h = (apply_filters-IsBuilt 0 cs clauses h).says [] tt
