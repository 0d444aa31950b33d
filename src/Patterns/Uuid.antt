-- ===== src/Patterns/Uuid.antt =====
-- The form of a canonical UUID.
use nest_order_api.Common.{
  ℕ, zero, suc, ◌+◌, ◌≡◌, refl, ap, ◌∙◌, Text, Bool, true, ◌&&◌, ◌||◌, List, [], ◌∷◌, some, leb,
  ◌==◌, all, length, arith, lower_unit, to_lower, Bool-cases, Option-cases, inl, inr,
}
use nest_order_api.Patterns.{is_digit, is_hex, after_run, after_unit, is_hex_groups, is_uuid_text}

-- What an accepted UUID is made of when it was written in lower case: digits, `a` to `f` and dashes.
abbrev pub is_uuid_unit : ℕ → Bool
is_uuid_unit c = is_digit c || leb b'a' c && leb c b'f' || c == b'-'

lower_hex : (c : ℕ) → is_hex c ≡ true → is_uuid_unit (lower_unit c) ≡ true
unfolding lower_unit
lower_hex c h = ground arith

-- The units before the rest, in lower case, and their number.
run_split :
    (n : ℕ) (s rest : Text)
    → after_run is_hex n s ≡ some rest
    → (all is_uuid_unit (to_lower s) ≡ all is_uuid_unit (to_lower rest))
      × (length s ≡ n + length rest)
unfolding after_run to_lower
run_split zero s rest h = let same : s ≡ rest = cc in (rw same refl, omega (arith, ap length same))
run_split (suc n) [] rest h = cc
run_split (suc n) (c ∷ s) rest h = elim (Bool-cases (is_hex c)) [
  | inl e ↦
      let (units, size) = run_split n s rest (rw e at h) in
      (rw (lower_hex c e) units, omega (arith, size))
  | inr e ↦ absurd (cc (rw e at h))
]

dash_split :
    (s rest : Text)
    → after_unit b'-' s ≡ some rest
    → (all is_uuid_unit (to_lower s) ≡ all is_uuid_unit (to_lower rest))
      × (length s ≡ 1 + length rest)
unfolding after_unit to_lower lower_unit
dash_split [] rest h = cc
dash_split (c ∷ s) rest h = elim (Bool-cases (c == b'-')) [
  | inl e ↦
      let left : some s ≡ some rest = rw e at h in
      let same : s ≡ rest = cc in
      let dash : c ≡ b'-' = ground arith in (rw (dash, same) refl, omega (arith, ap length same))
  | inr e ↦ absurd (cc (rw e at h))
]

-- The length of the whole: the groups and the dashes.
abbrev group_units : ℕ → List ℕ → ℕ
group_units n [] = n
group_units n (m ∷ ns) = n + 1 + group_units m ns

ended : (s : Text) → (length s == 0) ≡ true → s ≡ []
ended [] h = refl
ended (c ∷ s) h = absurd (ground arith)

groups_form :
    (n : ℕ) (ns : List ℕ) (s : Text)
    → is_hex_groups n ns s ≡ true
    → (all is_uuid_unit (to_lower s) ≡ true) × (length s ≡ group_units n ns)
unfolding is_hex_groups to_lower
groups_form n [] s h = elim (Option-cases (after_run is_hex n s)) [
  | inl e ↦ absurd (cc (rw (e, is_hex_groups) at h))
  | inr (rest, e) ↦
      let none_left : rest ≡ [] = ended rest (rw (e, is_hex_groups) at h) in
      let (units, size) = run_split n s rest e in
      (units ∙ rw none_left refl, omega (arith, size, ap length none_left))
]
groups_form n (m ∷ ns) s h = elim (Option-cases (after_run is_hex n s)) [
  | inl e ↦ absurd (cc (rw (e, is_hex_groups) at h))
  | inr (rest, e) ↦ elim (Option-cases (after_unit b'-' rest)) [
    | inl f ↦ absurd (cc (rw (e, f, is_hex_groups) at h))
    | inr (next, f) ↦
        let (units, size) = run_split n s rest e in
        let (units', size') = dash_split rest next f in
        let (good, total) = groups_form m ns next (rw (e, f, is_hex_groups) at h) in
        (units ∙ units' ∙ good, omega (arith, size, size', total))
  ]
]

-- An accepted UUID has 36 units, and in lower case it holds hexadecimal digits and dashes only.
pub is_uuid_text_form :
    (s : Text) → is_uuid_text s ≡ true → (all is_uuid_unit (to_lower s) ≡ true) × (length s ≡ 36)
unfolding is_uuid_text
is_uuid_text_form s h = groups_form 8 (4 ∷ 4 ∷ 4 ∷ 12 ∷ []) s h
