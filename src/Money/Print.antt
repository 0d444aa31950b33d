-- ===== src/Money/Print.antt =====
-- Printing an amount and reading it back.
use nest_order_api.Common.{
  ℕ, zero, suc, ◌+◌, ◌*◌, ◌/◌, ◌%◌, ◌<◌, Text, ◌≡◌, refl, ◌∙◌, ap, [], ◌∷◌, ◌++◌, ltb, arith,
  Bool-cases, inl, inr, ltb→lt, true, all, ◌≢◌,
}
use nest_order_api.Patterns.{is_digit}
use nest_order_api.Money.{digits_from, digits, print_cents, cents_from, cents_of, cents_step}

cents_from-append :
    (acc : ℕ) (s t : Text) → cents_from acc (s ++ t) ≡ cents_from (cents_from acc s) t
unfolding cents_from
cents_from-append acc [] t = refl
cents_from-append acc (c ∷ s) t = cents_from-append (cents_step acc c) s t

cents_from-digit :
    (acc d : ℕ) (s : Text) → d < 10 → cents_from acc ((48 + d) ∷ s) ≡ cents_from (acc * 10 + d) s
unfolding cents_from
cents_from-digit acc d s h = ground arith

digits_from-cents :
    (f n : ℕ) (acc : Text) → n < f → cents_from 0 (digits_from f n acc) ≡ cents_from n acc
unfolding digits_from
digits_from-cents zero n acc h = elim h [ ]
digits_from-cents (suc f) n acc h = elim (Bool-cases (ltb n 10)) [
  | inl small ↦
      rw small
        (cents_from-digit 0 n acc (ltb→lt n 10 small) ∙ ap (λ k. cents_from k acc) (omega arith))
  | inr large ↦ rw large (
      digits_from-cents f (n / 10) ((48 + n % 10) ∷ acc) (ground arith)
      ∙ cents_from-digit (n / 10) (n % 10) acc (omega arith)
      ∙ ap (λ k. cents_from k acc) (omega arith))
]

cents_from-digits : (n : ℕ) → cents_from 0 (digits n) ≡ n
unfolding digits cents_from
cents_from-digits n = digits_from-cents (suc n) n [] (omega arith)

-- An amount that is printed with two decimals reads back as itself.
pub cents_of-print_cents : (c : ℕ) → cents_of (print_cents c) ≡ c
unfolding cents_of print_cents
cents_of-print_cents c =
    cents_from-append 0 (digits (c / 100)) _ ∙ rw cents_from-digits (ground arith)

digits_from-all :
    (f n : ℕ) (acc : Text)
    → n < f
    → all is_digit acc ≡ true
    → (all is_digit (digits_from f n acc) ≡ true) × (digits_from f n acc ≢ [])
unfolding digits_from
digits_from-all zero n acc h a = elim h [ ]
digits_from-all (suc f) n acc h a = elim (Bool-cases (ltb n 10)) [
  | inl small ↦ rw small (ground arith, λ e. cc)
  | inr large ↦
      rw large (digits_from-all f (n / 10) ((48 + n % 10) ∷ acc) (ground arith) (ground arith))
]

-- The printed digits are digits, at least one, and read back as the number.
pub digits_lem :
    (n : ℕ) → (all is_digit (digits n) ≡ true) × (digits n ≢ []) × (cents_from 0 (digits n) ≡ n)
unfolding digits
digits_lem n =
    let (units, some_unit) = digits_from-all (suc n) n [] (omega arith) refl in
    (units, some_unit, cents_from-digits n)
