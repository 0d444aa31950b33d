-- ===== src/Examples/LikeWitness.antt =====
-- A pattern matcher at which the theorem on `lk` is applied.
use nest_order_api.Common.{
  ℕ, ◌≡◌, ◌↔◌, refl, sym, ap, ◌∙◌, ◌++◌, Text, lit, Bool, true, false, [], ◌∷◌, length, ◌==◌, ◌||◌,
  ◌&&◌, lower_unit, Bool-cases, inl, inr, arith, if◌then◌else◌,
}
use nest_order_api.Search.Query.{like_pattern}
use nest_order_api.Search.Query.Like.{LikeLaws, Contains, like_pattern_iff}

-- A matcher that compares units up to the case of ASCII letters.
any_suffix : (Text → Bool) → Text → Bool
any_suffix p [] = p []
any_suffix p (c ∷ s) = p (c ∷ s) || any_suffix p s

like_unit : ℕ → (Text → Bool) → Text → Bool
like_unit c p [] = false
like_unit c p (x ∷ s) = (lower_unit c == lower_unit x) && p s

like : Text → Text → Bool
unfolding any_suffix like_unit
like [] s = length s == 0
like (c ∷ []) s = if c == b'%' then any_suffix (like []) s else like_unit c (like []) s
like (c ∷ d ∷ p) s =
    if c == b'%'
    then any_suffix (like (d ∷ p)) s
    else if c == b'\\'
    then like_unit d (like p) s
    else like_unit c (like (d ∷ p)) s

suffix_sound :
    (p : Text → Bool) (s : Text)
    → any_suffix p s ≡ true
    → (before : Text) × (after : Text) × (s ≡ before ++ after) × (p after ≡ true)
unfolding any_suffix
suffix_sound p [] h = ([], [], refl, h)
suffix_sound p (c ∷ s) h = elim (Bool-cases (p (c ∷ s))) [
  | inl e ↦ ([], c ∷ s, refl, e)
  | inr n ↦
      let (before, after, e, k) = suffix_sound p s (rw n at h) in
      (c ∷ before, after, ap (λ r. c ∷ r) e, k)
]

suffix_complete :
    (p : Text → Bool) (before after : Text) → p after ≡ true → any_suffix p (before ++ after) ≡ true
unfolding any_suffix
suffix_complete p [] [] h = h
suffix_complete p [] (c ∷ s) h = rw h refl
suffix_complete p (c ∷ before) after h = ground (arith, suffix_complete p before after h)

suffix_iff :
    (p : Text → Bool) (s : Text)
    → (any_suffix p s ≡ true)
      ↔ ((before : Text) × (after : Text) × (s ≡ before ++ after) × (p after ≡ true))
suffix_iff p s = (
  suffix_sound p s,
  λ w. let (before, after, e, h) = w in rw e (suffix_complete p before after h),
)

unit_iff :
    (c : ℕ) (p : Text → Bool) (s : Text)
    → (like_unit c p s ≡ true)
      ↔ ((x : ℕ) × (rest : Text) × (s ≡ x ∷ rest) × (lower_unit c ≡ lower_unit x) × (p rest ≡ true))
unfolding like_unit
unit_iff c p [] = (λ h. absurd (cc), λ w. let (x, rest, e, _, _) = w in absurd (cc))
unit_iff c p (x ∷ s) = (
  λ h. (x, s, refl, ground (arith, h), ground (arith, h)),
  λ w.
      let (y, rest, e, same, k) = w in
      let heads : x ≡ y = cc in
      let tails : s ≡ rest = cc in
      let alike : lower_unit c ≡ lower_unit x = same ∙ ap lower_unit (sym heads) in
      let last : p s ≡ true = rw tails k in ground (arith, alike, last),
)

end_iff : (s : Text) → ((length s == 0) ≡ true) ↔ (s ≡ [])
end_iff [] = (λ h. refl, λ e. refl)
end_iff (c ∷ s) = (λ h. absurd (ground (arith, h)), λ e. absurd (cc))

any_iff :
    (p s : Text)
    → (like (b'%' ∷ p) s ≡ true)
      ↔ ((before : Text) × (after : Text) × (s ≡ before ++ after) × (like p after ≡ true))
unfolding like
any_iff [] s = suffix_iff (like []) s
any_iff (d ∷ p) s = suffix_iff (like (d ∷ p)) s

literal_iff :
    (c : ℕ) (p s : Text)
    → (c == b'\\' || c == b'%' || c == b'_') ≡ false
    → (like (c ∷ p) s ≡ true) ↔ (
        (x : ℕ) × (rest : Text) × (s ≡ x ∷ rest)
        × (lower_unit c ≡ lower_unit x)
        × (like p rest ≡ true))
unfolding like
literal_iff c [] s n =
    let percent : (c == b'%') ≡ false = ground (arith, n) in
    rw (percent, like) (unit_iff c (like []) s)
literal_iff c (d ∷ p) s n =
    let percent : (c == b'%') ≡ false = ground (arith, n) in
    let slash : (c == b'\\') ≡ false = ground (arith, n) in
    rw (percent, slash, like) (unit_iff c (like (d ∷ p)) s)

like_laws : LikeLaws lower_unit like
unfolding like
like_laws = record {
  like-end = end_iff;
  like-any = any_iff;
  like-escape = λ c p s. unit_iff c (like p) s;
  like-unit = literal_iff;
}

-- The term `50%` is found in `up to 50% OFF`, not as a wildcard.
like_pattern_iff_example :
    (like (like_pattern (lit "50% off")) (lit "up to 50% OFF") ≡ true)
    ↔ Contains lower_unit (lit "50% off") (lit "up to 50% OFF")
like_pattern_iff_example =
    like_pattern_iff lower_unit like like_laws (lit "50% off") (lit "up to 50% OFF")
