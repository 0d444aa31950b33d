-- ===== src/Customer/Request/Canonical.antt =====
-- The canonical form of a tax id.
use mathlib.Core.Bool.{and-eq-true_iff}
use nest_order_api.Common.{
  ap, ℕ, Text, ◌≡◌, refl, Bool, true, ◌||◌, keep, all, [], ◌∷◌, map, arith, Bool-cases, inl, inr,
  upper_unit,
}
use nest_order_api.Customer.Request.{is_alphanumeric, is_upper, is_digit, canonical_tax_id}

-- An upper-case letter or a digit.
abbrev is_canonical_unit : ℕ → Bool
is_canonical_unit c = is_upper c || is_digit c

upper_unit-canonical : (c : ℕ) → is_alphanumeric c ≡ true → is_canonical_unit (upper_unit c) ≡ true
unfolding upper_unit
upper_unit-canonical c h = ground arith

upper_unit_fixed :
    (c : ℕ) → is_canonical_unit c ≡ true → (upper_unit c ≡ c) × (is_alphanumeric c ≡ true)
unfolding upper_unit
upper_unit_fixed c h = ground arith

canonical_units :
    (raw : Text) → all is_canonical_unit (map upper_unit (keep is_alphanumeric raw)) ≡ true
canonical_units [] = refl
canonical_units (c ∷ raw) = elim (Bool-cases (is_alphanumeric c)) [
  | inl p ↦ rw p (rw (upper_unit-canonical c p) (canonical_units raw))
  | inr n ↦ rw n (canonical_units raw)
]

canonical_fixed :
    (s : Text) → all is_canonical_unit s ≡ true → map upper_unit (keep is_alphanumeric s) ≡ s
canonical_fixed [] h = refl
canonical_fixed (c ∷ s) h =
    let (head, rest) = (and-eq-true_iff _ _).0 h in
    let (same, kept) = upper_unit_fixed c head in
    rw (kept, same) (ap (λ t. c ∷ t) (canonical_fixed s rest))

-- The canonical form holds upper-case letters and digits only, and is its own canonical form.
pub canonical_tax_id_idempotent :
    (raw : Text)
    → (all is_canonical_unit (canonical_tax_id raw) ≡ true)
      × (canonical_tax_id (canonical_tax_id raw) ≡ canonical_tax_id raw)
unfolding canonical_tax_id
canonical_tax_id_idempotent raw = (canonical_units raw, canonical_fixed _ (canonical_units raw))
