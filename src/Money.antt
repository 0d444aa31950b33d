-- ===== src/Money.antt =====
-- Amounts of money. A price is a text with two decimals from end to end; a request's `number`,
-- which the validation holds to two decimals, is counted in hundredths.
pub mod Print
use nest_order_api.Common.{
  ℕ, zero, suc, ◌+◌, ◌-◌, ◌*◌, ◌/◌, ◌%◌, ◌<◌, ◌^◌, Text, ◌≡◌, [], ◌∷◌, ◌++◌, ltb, ◌==◌,
  if◌then◌else◌,
}

digits_from : ℕ → ℕ → Text → Text
digits_from zero n acc = acc
digits_from (suc f) n acc =
    let rest = digits_from f (n / 10) ((48 + n % 10) ∷ acc) in
    if ltb n 10 then (48 + n) ∷ acc else rest

-- The decimal digits of a whole number.
unfoldable pub digits : ℕ → Text
unfolding digits_from
digits n = digits_from (suc n) n []

-- `(c / 100).toFixed(2)`
unfoldable pub print_cents : ℕ → Text
unfolding digits
print_cents c = digits (c / 100) ++ b'.' ∷ (48 + c / 10 % 10) ∷ (48 + c % 10) ∷ []

-- The amount that a text with two decimals stands for, in hundredths.
abbrev pub cents_step : ℕ → ℕ → ℕ
cents_step acc c = if c == b'.' then acc else acc * 10 + (c - 48)

unfoldable pub cents_from : ℕ → Text → ℕ
cents_from acc [] = acc
cents_from acc (c ∷ s) = cents_from (cents_step acc c) s

unfoldable pub cents_of : Text → ℕ
unfolding cents_from
cents_of s = cents_from 0 s

-- The significant digits that decimal.js keeps by default.
abbrev pub precision_limit : ℕ
precision_limit = 10 ^ 20

-- decimal.js, as far as the program calls it. `Denotes d c`: the value of `d` is `c` hundredths.
-- The constructor is exact on a text, an operation is exact while the result needs no more digits
-- than the precision, and `toFixed(2)` prints two decimals.
pub record Decimal : Type 1 where
  pub Num : Type 0
  pub Denotes : Num → ℕ → Type 0
  pub of_text : Text → Num
  pub nought : Num
  pub plus : Num → Num → Num
  pub times : Num → ℕ → Num
  pub to_fixed : Num → Text
  pub of_text-Denotes : (c : ℕ) → Denotes (of_text (print_cents c)) c
  pub nought-Denotes : Denotes nought 0
  pub plus-Denotes :
      (a b : Num) (m n : ℕ)
      → Denotes a m
      → Denotes b n
      → m + n < precision_limit
      → Denotes (plus a b) (m + n)
  pub times-Denotes :
      (a : Num) (m q : ℕ) → Denotes a m → m * q < precision_limit → Denotes (times a q) (m * q)
  pub to_fixed-Denotes : (a : Num) (m : ℕ) → Denotes a m → to_fixed a ≡ print_cents m
