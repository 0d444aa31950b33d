-- ===== src/Search/Query/Parameters.antt =====
-- The names of a query's parameters tell the index of their criterion.
use nest_order_api.Common.{
  ℕ, Text, lit, text_eq, text_eq_iff, ◌≡◌, ◌≢◌, refl, sym, ◌∙◌, ap, true, [], ◌∷◌, ◌++◌, Option,
  none, some, All, all, ◌==◌, LacksUnit, arith, Bool-cases, Option-cases, inl, inr, if◌then◌else◌,
}
use mathlib.Core.List.{append_assoc}
use nest_order_api.Money.{digits, cents_from, cents_step}
use nest_order_api.Money.Print.{digits_lem}
use nest_order_api.Patterns.{is_digit}
use nest_order_api.Search.Query.{Bound, param_name}
use nest_order_api.Search.Query.Meaning.{Bindings, value_of}

-- The units after the last `_`, or `acc` if there is none.
last_part : Text → Text → Text
last_part acc [] = acc
last_part acc (c ∷ s) = if c == b'_' then last_part s s else last_part acc s

leading : ℕ → Text → ℕ
leading acc [] = acc
leading acc (c ∷ s) = let rest = leading (cents_step acc c) s in if is_digit c then rest else acc

-- The number that follows the last `_`.
unfoldable pub index_of : Text → ℕ
unfolding last_part leading
index_of name = leading 0 (last_part [] name)

last_part-append : (acc s t : Text) → last_part acc (s ++ b'_' ∷ t) ≡ last_part t t
unfolding last_part
last_part-append acc [] t = refl
last_part-append acc (c ∷ s) t = elim (Bool-cases (c == b'_')) [
  | inl e ↦ rw e (last_part-append (s ++ b'_' ∷ t) s t)
  | inr n ↦ rw n (last_part-append acc s t)
]

last_part-lacks : (acc s : Text) → LacksUnit b'_' s → last_part acc s ≡ acc
unfolding last_part
last_part-lacks acc [] h = refl
last_part-lacks acc (c ∷ s) (n, h) = ground (arith, last_part-lacks acc s h)

leading-digits :
    (acc : ℕ) (d s : Text)
    → all is_digit d ≡ true
    → leading acc (d ++ s) ≡ leading (cents_from acc d) s
unfolding leading cents_from
leading-digits acc [] s h = refl
leading-digits acc (c ∷ d) s h = elim (Bool-cases (is_digit c)) [
  | inl e ↦ rw e (leading-digits (cents_step acc c) d s (rw e at h))
  | inr n ↦ absurd (cc (rw n at h))
]

digits_lack : (d s : Text) → all is_digit d ≡ true → LacksUnit b'_' s → LacksUnit b'_' (d ++ s)
digits_lack [] s h k = k
digits_lack (c ∷ d) s h k = elim (Bool-cases (is_digit c)) [
  | inl e ↦ (λ same. ground arith, digits_lack d s (rw e at h) k)
  | inr n ↦ absurd (cc (rw n at h))
]

-- The end of a name: neither `_` nor, at its start, a digit.
record IsSuffix (s : Text) : Type 0 where
  lacks : LacksUnit b'_' s
  stops : (i : ℕ) → leading i s ≡ i

index_of_suffixed :
    (on : Text) (i : ℕ) (s : Text) → IsSuffix s → index_of (param_name on i ++ s) ≡ i
unfolding index_of
index_of_suffixed on i s h =
    let (units, _, value) = digits_lem i in
    rw (append_assoc on (b'_' ∷ digits i) s) (
      ap (leading 0) (
        last_part-append [] on (digits i ++ s)
        ∙ last_part-lacks (digits i ++ s) (digits i ++ s) (digits_lack (digits i) s units h.lacks))
      ∙ leading-digits 0 (digits i) s units
      ∙ ap (λ k. leading k s) value
      ∙ h.stops i)

pub index_of-from : (on : Text) (i : ℕ) → index_of (param_name on i ++ lit "From") ≡ i
unfolding leading
index_of-from on i = index_of_suffixed on i (lit "From") (record {
  lacks = (λ e. omega arith, (λ e. omega arith, (λ e. omega arith, (λ e. omega arith, tt))));
  stops = λ k. refl;
})

pub index_of-to : (on : Text) (i : ℕ) → index_of (param_name on i ++ lit "To") ≡ i
unfolding leading
index_of-to on i =
    index_of_suffixed on i (lit "To")
      (record { lacks = (λ e. omega arith, (λ e. omega arith, tt)); stops = λ k. refl })

append_nil : (s : Text) → s ++ [] ≡ s
append_nil [] = refl
append_nil (c ∷ s) = ap (λ t. c ∷ t) (append_nil s)

pub index_of-param : (on : Text) (i : ℕ) → index_of (param_name on i) ≡ i
unfolding leading
index_of-param on i =
    ap index_of (sym (append_nil (param_name on i)))
    ∙ index_of_suffixed on i [] (record { lacks = tt; stops = λ k. refl })

-- The two names of a range differ.
same_start : (s t u : Text) → s ++ t ≡ s ++ u → t ≡ u
same_start [] t u h = h
same_start (c ∷ s) t u h = same_start s t u (cc)

pub from≢to : (s : Text) → s ++ lit "From" ≢ s ++ lit "To"
from≢to s h = let ends = same_start s (lit "From") (lit "To") h in cc

-- All the names have the index.
abbrev pub HaveIndex : (ℕ → Type 0) → Bindings → Type 0
HaveIndex P ps = All (λ b. P (index_of b.0)) ps

pub value_of-absent :
    (P : ℕ → Type 0) (name : Text) (ps : Bindings)
    → HaveIndex P ps
    → (P (index_of name) → ⊥)
    → value_of name ps ≡ none
unfolding value_of
value_of-absent P name [] h n = refl
value_of-absent P name ((m, v) ∷ ps) (p, h) n =
    rw (value_of-absent P name ps h n) (elim (Bool-cases (text_eq m name)) [
      | inl e ↦ let same = (text_eq_iff m name).0 e in absurd (n (rw (← same) p))
      | inr f ↦ rw f refl
    ])

abbrev pub or_earlier : Option Bound → Option Bound → Option Bound
or_earlier (some v) o = some v
or_earlier none o = o

pub value_of-append :
    (name : Text) (ps qs : Bindings)
    → value_of name (ps ++ qs) ≡ or_earlier (value_of name qs) (value_of name ps)
unfolding value_of
value_of-append name [] qs = elim (Option-cases (value_of name qs)) [
  | inl e ↦ rw e refl
  | inr (v, e) ↦ rw e refl
]
value_of-append name ((m, v) ∷ ps) qs =
    rw (value_of-append name ps qs)
      (elim (Option-cases (value_of name qs)) [ inl e ↦ rw e refl | inr (w, e) ↦ rw e refl ])
