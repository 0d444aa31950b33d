-- ===== src/Patterns.antt =====
-- The regular expressions of the source, as tests on texts.
pub mod Uuid
use nest_order_api.Common.{
  ℕ, zero, suc, Text, Bool, true, false, ◌&&◌, ◌||◌, not, List, [], ◌∷◌, Option, none, some, leb,
  ◌==◌, all, length, if◌then◌else◌,
}

-- `[0-9]`
abbrev pub is_digit : ℕ → Bool
is_digit c = leb b'0' c && leb c b'9'

-- `[0-9a-f]`, with the flag `i`.
abbrev pub is_hex : ℕ → Bool
is_hex c = is_digit c || leb b'a' c && leb c b'f' || leb b'A' c && leb c b'F'

-- `^\d+$`
unfoldable pub is_digits : Text → Bool
is_digits s = not (length s == 0) && all is_digit s

-- A run of exactly so many units that pass the test, and what follows it.
unfoldable pub after_run : (ℕ → Bool) → ℕ → Text → Option Text
after_run p zero s = some s
after_run p (suc n) [] = none
after_run p (suc n) (c ∷ s) = let rest = after_run p n s in if p c then rest else none

-- The text after one given unit.
unfoldable pub after_unit : ℕ → Text → Option Text
after_unit d [] = none
after_unit d (c ∷ s) = if c == d then some s else none

-- Groups of so many hexadecimal digits, with dashes between them.
unfoldable pub is_hex_groups : ℕ → List ℕ → Text → Bool
unfolding after_run after_unit
is_hex_groups n [] s = elim (after_run is_hex n s) [ none ↦ false | some rest ↦ length rest == 0 ]
is_hex_groups n (m ∷ ns) s = elim (after_run is_hex n s) [
  | none ↦ false
  | some rest ↦ elim (after_unit b'-' rest) [ none ↦ false | some next ↦ is_hex_groups m ns next ]
]

-- `/^[0-9a-f]{8}-[0-9a-f]{4}-[0-9a-f]{4}-[0-9a-f]{4}-[0-9a-f]{12}$/i`
unfoldable pub is_uuid_text : Text → Bool
unfolding is_hex_groups
is_uuid_text s = is_hex_groups 8 (4 ∷ 4 ∷ 4 ∷ 12 ∷ []) s
