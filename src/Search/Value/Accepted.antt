-- ===== src/Search/Value/Accepted.antt =====
-- What a value that is bound to a parameter looks like, by the kind of its column.
use nest_order_api.Common.{
  ℕ, ◌+◌, ◌-◌, ◌*◌, ◌≤◌, ◌<◌, ◌^◌, ◌≡◌, ◌≢◌, refl, subst, ◌∙◌, ◌++◌, leb→le, ◌⊎◌, inl, inr, Text,
  lit, text_eq, text_eq_iff, to_lower, split_on, split_on-all, Bool, true, false, ◌&&◌, ◌||◌, List,
  [], ◌∷◌, all, leb, ◌==◌, length, length-map, arith, Bool-cases, if◌then◌else◌, starts_with,
  drop_units, lower_unit,
}
use nest_order_api.Effects.{Result, ok}
use nest_order_api.Money.{digits, cents_from}
use nest_order_api.Money.Print.{digits_lem}
use nest_order_api.Patterns.{is_digit, is_digits, is_uuid_text}
use nest_order_api.Patterns.Uuid.{is_uuid_unit, is_uuid_text_form}
use nest_order_api.Search.Column.{
  FilterableColumn, ColumnKind, uuid, integer, decimal, boolean, datetime, enum, text, kind_of,
  is_one_of,
}
use nest_order_api.Search.Value.{
  FilterValue, plain, whole, truth, is_negative, unsigned, is_integer_text, digits_value, is_safe,
  is_decimal_parts, is_plain_decimal, is_date_unit, is_iso_date, enum_values, coerce_as,
  coerce_filter_value, invalid, max_safe_integer,
}

abbrev pub Occurs : Text → List Text → Type 0
Occurs s [] = ⊥
Occurs s (v ∷ vs) = (v ≡ s) ⊎ Occurs s vs

-- A digit, a point or a minus.
abbrev pub is_decimal_unit : ℕ → Bool
is_decimal_unit c = (is_digit c || c == b'.') || c == b'-'

-- The values that a column of the kind can be compared with.
abbrev pub IsTyped : ColumnKind → List Text → FilterValue → Type 0
IsTyped uuid values (plain s) = (all is_uuid_unit s ≡ true) × (length s ≡ 36)
IsTyped integer values (whole negative n) = n < 2 ^ 53
IsTyped decimal values (plain s) = all is_decimal_unit s ≡ true
IsTyped boolean values (truth b) = Unit
IsTyped datetime values (plain s) = (all is_date_unit s ≡ true) × (length s ≤ 40)
IsTyped enum values (plain s) = Occurs s values
IsTyped text values (plain s) = Unit
IsTyped _ values _ = ⊥

is_one_of-Occurs : (vs : List Text) (s : Text) → is_one_of vs s ≡ true → Occurs s vs
is_one_of-Occurs [] s h = cc
is_one_of-Occurs (v ∷ vs) s h = elim (Bool-cases (text_eq v s)) [
  | inl e ↦ inl ((text_eq_iff v s).0 e)
  | inr n ↦ inr (is_one_of-Occurs vs s (rw n at h))
]

all_weaken :
    (p q : ℕ → Bool) (s : Text)
    → ((c : ℕ) → p c ≡ true → q c ≡ true)
    → all p s ≡ true
    → all q s ≡ true
all_weaken p q [] w h = refl
all_weaken p q (c ∷ s) w h = ground (arith, w c, all_weaken p q s w)

parts_are_digits :
    (parts : List Text) → is_decimal_parts parts ≡ true → all (λ t. all is_digit t) parts ≡ true
unfolding is_decimal_parts is_digits
parts_are_digits [] h = refl
parts_are_digits (a ∷ []) h = ground arith
parts_are_digits (a ∷ b ∷ []) h = ground arith
parts_are_digits (_ ∷ _ ∷ _ ∷ _) h = cc

unsigned_decimal :
    (raw : Text) → all is_decimal_unit (unsigned raw) ≡ true → all is_decimal_unit raw ≡ true
unfolding starts_with drop_units
unsigned_decimal [] h = h
unsigned_decimal (c ∷ s) h = elim (Bool-cases (c == b'-')) [
  | inl e ↦ ground arith
  | inr n ↦ ground arith
]

plain_decimal_form : (raw : Text) → is_plain_decimal raw ≡ true → all is_decimal_unit raw ≡ true
unfolding is_plain_decimal
plain_decimal_form raw h =
    let parts = parts_are_digits (split_on b'.' (unsigned raw)) h in
    let joined : all (λ c. is_digit c || c == b'.') (unsigned raw) ≡ true =
      split_on-all is_digit b'.' (unsigned raw) parts in
    unsigned_decimal raw (
      all_weaken (λ c. is_digit c || c == b'.') is_decimal_unit (unsigned raw) (λ c w. ground arith)
        joined)

digits_value-cents :
    (acc : ℕ) (s : Text) → all is_digit s ≡ true → digits_value acc s ≡ cents_from acc s
unfolding digits_value cents_from
digits_value-cents acc [] h = refl
digits_value-cents acc (c ∷ s) h =
    let plain_step : (c == b'.') ≡ false = ground arith in
    rw plain_step (digits_value-cents (acc * 10 + (c - 48)) s (ground arith))

-- The minus of a negative number.
abbrev sign_text : Bool → Text
sign_text true = lit "-"
sign_text false = []

unsigned_digits :
    (s : Text) → all is_digit s ≡ true → s ≢ [] → (is_negative s ≡ false) × (unsigned s ≡ s)
unfolding starts_with drop_units
unsigned_digits [] h n = absurd (n refl)
unsigned_digits (c ∷ s) h n =
    let plain_step : (c == b'-') ≡ false = ground arith in (rw plain_step refl, rw plain_step refl)

signed_parts :
    (negative : Bool) (s : Text)
    → all is_digit s ≡ true
    → s ≢ []
    → (is_negative (sign_text negative ++ s) ≡ negative) × (unsigned (sign_text negative ++ s) ≡ s)
unfolding starts_with drop_units
signed_parts true s h n = (refl, refl)
signed_parts false s h n = unsigned_digits s h n

is_digits_lem : (s : Text) → all is_digit s ≡ true → s ≢ [] → is_digits s ≡ true
unfolding is_digits
is_digits_lem [] h n = absurd (n refl)
is_digits_lem (c ∷ s) h n = ground arith

boolean_ok :
    {v : FilterValue} → ◌≡◌ {A = Result FilterValue} (ok (truth true)) (ok v) → truth true ≡ v
boolean_ok h = cc

module _ (parses_as_date : Text → Bool) where
  iso_form :
      (raw : Text)
      → is_iso_date parses_as_date raw ≡ true
      → (all is_date_unit raw ≡ true) × (length raw ≤ 40)
  unfolding is_iso_date
  iso_form raw h = ground arith

  returned :
      (column : FilterableColumn) (b : Bool) (w v : FilterValue)
      → ◌≡◌ {A = Result FilterValue} (if b then ok w else invalid column) (ok v)
      → (b ≡ true) × (w ≡ v)
  returned column true w v h = (refl, cc)
  returned column false w v h = cc

  coerce_as-IsTyped :
      (kind : ColumnKind) (column : FilterableColumn) (raw : Text) (v : FilterValue)
      → coerce_as parses_as_date kind column raw ≡ ok v
      → IsTyped kind (enum_values column.values) v
  unfolding coerce_as
  coerce_as-IsTyped uuid column raw v h =
      let (good, same) = returned column (is_uuid_text raw) (plain (to_lower raw)) v h in
      let (units, size) = is_uuid_text_form raw good in
      subst (IsTyped uuid (enum_values column.values)) same
        (units, unfold to_lower in (length-map lower_unit raw ∙ size))
  coerce_as-IsTyped integer column raw v h =
      let n = digits_value 0 (unsigned raw) in
      let (good, same) =
        returned column (is_integer_text raw && is_safe n) (whole (is_negative raw) n) v h in
      let small : leb n max_safe_integer ≡ true = ground arith in
      subst (IsTyped integer (enum_values column.values)) same
        (omega (arith, leb→le n max_safe_integer small))
  coerce_as-IsTyped decimal column raw v h =
      let (good, same) = returned column (is_plain_decimal raw) (plain raw) v h in
      subst (IsTyped decimal (enum_values column.values)) same (plain_decimal_form raw good)
  coerce_as-IsTyped boolean column raw v h =
      elim (Bool-cases (text_eq (to_lower raw) (lit "true"))) [
        | inl e ↦ subst (IsTyped boolean (enum_values column.values)) (boolean_ok (rw e at h)) tt
        | inr n ↦
            let (good, same) =
              returned column (text_eq (to_lower raw) (lit "false")) (truth false) v (rw n at h) in
            subst (IsTyped boolean (enum_values column.values)) same tt
      ]
  coerce_as-IsTyped datetime column raw v h =
      let (good, same) = returned column (is_iso_date parses_as_date raw) (plain raw) v h in
      subst (IsTyped datetime (enum_values column.values)) same (iso_form raw good)
  coerce_as-IsTyped enum column raw v h =
      let (good, same) =
        returned column (is_one_of (enum_values column.values) raw) (plain raw) v h in
      subst (IsTyped enum (enum_values column.values)) same
        (is_one_of-Occurs (enum_values column.values) raw good)
  coerce_as-IsTyped text column raw v h =
      let same : plain raw ≡ v = cc in subst (IsTyped text (enum_values column.values)) same tt

  -- A filter's value that is accepted is made of what its column holds: 36 units of a UUID in lower
  -- case, a whole number below 2^53, a decimal of digits, points and minuses, a truth value, at
  -- most 40 units of a date, a value of the enumeration, or any text where the column holds text.
  pub coerce_filter_value-IsTyped :
      (column : FilterableColumn) (raw : Text) (v : FilterValue)
      → coerce_filter_value parses_as_date column raw ≡ ok v
      → IsTyped (kind_of column) (enum_values column.values) v
  unfolding coerce_filter_value
  coerce_filter_value-IsTyped column raw v h = coerce_as-IsTyped (kind_of column) column raw v h

  -- Every whole number of size below 2^53, printed with or without a minus, is read back from the
  -- filter of a column of whole numbers.
  pub coerce_filter_value-digits :
      (column : FilterableColumn) (negative : Bool) (n : ℕ)
      → kind_of column ≡ integer
      → n < 2 ^ 53
      → coerce_filter_value parses_as_date column (sign_text negative ++ digits n)
        ≡ ok (whole negative n)
  unfolding coerce_filter_value coerce_as is_integer_text
  coerce_filter_value-digits column negative n k h =
      let (units, some_unit, back) = digits_lem n in
      let (sign, size) = signed_parts negative (digits n) units some_unit in
      let value : digits_value 0 (digits n) ≡ n = digits_value-cents 0 (digits n) units ∙ back in
      let safe : is_safe n ≡ true = ground arith in
      rw (k, size, is_digits_lem (digits n) units some_unit, value, safe, sign) refl
