-- ===== src/Search/Criteria/Limits.antt =====
-- How many criteria a request can hold, and that they are the ones that were written.
use nest_order_api.Common.{
  ℕ, suc, ◌*◌, ◌≤◌, ◌≡◌, ◌≢◌, refl, ap, all, Text, text_eq, false, List, [], ◌∷◌, Option, none,
  some, All, All-append, length, length-append, ltb, arith, Bool-cases, inl, inr,
}
use nest_order_api.Effects.{Result, ok}
use nest_order_api.Fallible.{>>=-eq-ok, ok_same, guard_passed}
use nest_order_api.Search.Criteria.{
  Operator, eq, neq, lt, lte, gt, gte, is_in, between, lk, operator_text, FilterCriterion,
  max_filter_fields, max_conditions_per_field, max_value_length, exceeds_limits, parse_operator,
  checked_value, size_of, indexed, parse_conditions, parse_entries, parse_field, parse_fields,
  parse_query_filters,
}
use nest_order_api.Patterns.{is_digit}
use nest_order_api.Values.{
  Value, undefined, null, bool, num, date, str, arr, obj, Fields, end, field,
}

-- The value of a criterion is no longer than the limit.
abbrev pub IsShort : FilterCriterion → Type 0
IsShort c = length c.value ≤ max_value_length

-- At most so many criteria, all of them short.
pub record AtMost (n : ℕ) (cs : List FilterCriterion) : Type 0 where
  pub count : length cs ≤ n
  pub short : All IsShort cs

checked_short : (v : Value) (s : Text) → checked_value v ≡ ok s → length s ≤ max_value_length
unfolding checked_value
checked_short (str t) s h = elim (Bool-cases (ltb max_value_length (length t))) [
  | inl e ↦ absurd (cc (rw e at h))
  | inr n ↦
      let left : ◌≡◌ {A = Result Text} (ok t) (ok s) = rw n at h in
      let same : t ≡ s = cc in rw (← same) (ground arith)
]
checked_short undefined s h = cc
checked_short null s h = cc
checked_short (bool _) s h = cc
checked_short (num _) s h = cc
checked_short (date _) s h = cc
checked_short (arr _) s h = cc
checked_short (obj _) s h = cc

parse_conditions-AtMost :
    (on : Text) (fs : Fields) (cs : List FilterCriterion)
    → parse_conditions on fs ≡ ok cs
    → AtMost (size_of fs) cs
unfolding parse_conditions
parse_conditions-AtMost on end cs h = rw (← ok_same h) (record { count = omega arith; short = tt })
parse_conditions-AtMost on (field name v fs) cs h =
    let (operator, e, h') = >>=-eq-ok (parse_operator name) _ h in
    let (value, f, h'') = >>=-eq-ok (checked_value v) _ h' in
    let (rest, g, h''') = >>=-eq-ok (parse_conditions on fs) _ h'' in
    let later = parse_conditions-AtMost on fs rest g in
    rw (← ok_same h''') (record {
      count = omega (arith, later.count);
      short = (checked_short v value f, later.short);
    })

parse_entries-AtMost :
    (on : Text) (fs : Fields) (cs : List FilterCriterion)
    → parse_entries on fs ≡ ok cs
    → AtMost max_conditions_per_field cs
parse_entries-AtMost on fs cs h =
    let (few, parsed) =
      guard_passed (ltb max_conditions_per_field (size_of fs)) exceeds_limits
        (parse_conditions on fs) h in
    let all_of = parse_conditions-AtMost on fs cs parsed in
    record { count = ground (arith, all_of.count); short = all_of.short }

parse_field-AtMost :
    (on : Text) (v : Value) (cs : List FilterCriterion)
    → parse_field on v ≡ ok cs
    → AtMost max_conditions_per_field cs
unfolding parse_field
parse_field-AtMost on (str s) cs h =
    let (value, f, h') = >>=-eq-ok (checked_value (str s)) _ h in
    rw (← ok_same h') (record { count = omega arith; short = (checked_short (str s) value f, tt) })
parse_field-AtMost on (obj fs) cs h = parse_entries-AtMost on fs cs h
parse_field-AtMost on (arr xs) cs h = parse_entries-AtMost on (indexed 0 xs) cs h
parse_field-AtMost on (date _) cs h = parse_entries-AtMost on end cs h
parse_field-AtMost on undefined cs h = rw (← ok_same h) (record { count = omega arith; short = tt })
parse_field-AtMost on null cs h = rw (← ok_same h) (record { count = omega arith; short = tt })
parse_field-AtMost on (bool _) cs h = rw (← ok_same h) (record { count = omega arith; short = tt })
parse_field-AtMost on (num _) cs h = rw (← ok_same h) (record { count = omega arith; short = tt })

parse_fields-AtMost :
    (fs : Fields) (cs : List FilterCriterion)
    → parse_fields fs ≡ ok cs
    → AtMost (size_of fs * max_conditions_per_field) cs
unfolding parse_fields
parse_fields-AtMost end cs h = rw (← ok_same h) (record { count = omega arith; short = tt })
parse_fields-AtMost (field on v fs) cs h =
    let (now_here, e, h') = >>=-eq-ok (parse_field on v) _ h in
    let (rest, f, h'') = >>=-eq-ok (parse_fields fs) _ h' in
    let first = parse_field-AtMost on v now_here e in
    let later = parse_fields-AtMost fs rest f in
    rw (← ok_same h'') (record {
      count = omega (arith, length-append {0} now_here rest, first.count, later.count);
      short = All-append IsShort now_here rest first.short later.short;
    })

-- A filter that is accepted holds at most 100 criteria, each with a value of at most 200 units.
pub parse_query_filters-AtMost :
    (filter : Option Fields) (cs : List FilterCriterion)
    → parse_query_filters filter ≡ ok cs
    → AtMost 100 cs
unfolding parse_query_filters
parse_query_filters-AtMost none cs h = rw (← ok_same h) (record { count = omega arith; short = tt })
parse_query_filters-AtMost (some fs) cs h =
    let (few, parsed) =
      guard_passed (ltb max_filter_fields (size_of fs)) exceeds_limits (parse_fields fs) h in
    let all_of = parse_fields-AtMost fs cs parsed in
    record { count = ground (arith, all_of.count); short = all_of.short }

-- The filter that a client writes for some criteria.
abbrev pub filter_of : List FilterCriterion → Fields
filter_of [] = end
filter_of (c ∷ cs) =
    field c.on (obj (field (operator_text c.operator) (str c.value) end)) (filter_of cs)

parse_operator_text : (o : Operator) → parse_operator (operator_text o) ≡ ok o
unfolding parse_operator text_eq
parse_operator_text eq = refl
parse_operator_text neq = refl
parse_operator_text lt = refl
parse_operator_text lte = refl
parse_operator_text gt = refl
parse_operator_text gte = refl
parse_operator_text is_in = refl
parse_operator_text between = refl
parse_operator_text lk = refl

size_of-filter : (cs : List FilterCriterion) → size_of (filter_of cs) ≡ length cs
size_of-filter [] = refl
size_of-filter (c ∷ cs) = ap suc (size_of-filter cs)

short_checked : (s : Text) → length s ≤ max_value_length → checked_value (str s) ≡ ok s
unfolding checked_value
short_checked s h = ground arith

one_parsed :
    (c : FilterCriterion)
    → IsShort c
    → parse_field c.on (obj (field (operator_text c.operator) (str c.value) end)) ≡ ok (c ∷ [])
unfolding parse_field parse_conditions
one_parsed c h = rw (parse_operator_text c.operator, short_checked c.value h) refl

parse_filter_of : (cs : List FilterCriterion) → All IsShort cs → parse_fields (filter_of cs) ≡ ok cs
unfolding parse_fields
parse_filter_of [] h = refl
parse_filter_of (c ∷ cs) (h, hs) = rw (one_parsed c h, parse_filter_of cs hs) refl

-- An object holds the fields as they were written: the names differ, and none is an array index,
-- which an object would put first.
abbrev pub AreKeys : List FilterCriterion → Type 0
AreKeys [] = Unit
AreKeys (c ∷ cs) = (all is_digit c.on ≡ false) × (All (λ d. c.on ≢ d.on) cs × AreKeys cs)

-- Up to 10 criteria on different fields, of which none is named by digits only, with values of at most
-- 200 units, written as a filter, are read back the same, in their order.
pub parse_query_filters-filter_of :
    (cs : List FilterCriterion)
    → AreKeys cs
    → length cs ≤ 10
    → All IsShort cs
    → parse_query_filters (some (filter_of cs)) ≡ ok cs
unfolding parse_query_filters
parse_query_filters-filter_of cs keys few h =
    let room : ltb max_filter_fields (length cs) ≡ false = ground arith in
    rw (size_of-filter cs, room) (parse_filter_of cs h)
