-- ===== src/Search/Query/Like.antt =====
-- What a search by `lk` finds: the escape of the pattern, and `ILIKE` as the database documents it.
use nest_order_api.Common.{
  ℕ, Text, ◌++◌, ◌≡◌, ◌↔◌, refl, sym, ◌∙◌, ap, Bool, true, false, ◌||◌, [], ◌∷◌, map, ◌==◌,
  Bool-cases, inl, inr,
}
use nest_order_api.Search.Query.{escaped, like_pattern}

-- `like pattern value`, for `ILIKE … ESCAPE '\\'`: `fold` maps a unit to what it is compared by.
pub record LikeLaws (fold : ℕ → ℕ) (like : Text → Text → Bool) : Type 0 where
  pub like-end : (s : Text) → (like [] s ≡ true) ↔ (s ≡ [])
  pub like-any :
      (p s : Text)
      → (like (b'%' ∷ p) s ≡ true)
        ↔ ((before : Text) × (after : Text) × (s ≡ before ++ after) × (like p after ≡ true))
  pub like-escape :
      (c : ℕ) (p s : Text)
      → (like (b'\\' ∷ c ∷ p) s ≡ true)
        ↔ ((x : ℕ) × (rest : Text) × (s ≡ x ∷ rest) × (fold c ≡ fold x) × (like p rest ≡ true))
  pub like-unit :
      (c : ℕ) (p s : Text)
      → (c == b'\\' || c == b'%' || c == b'_') ≡ false
      → (like (c ∷ p) s ≡ true)
        ↔ ((x : ℕ) × (rest : Text) × (s ≡ x ∷ rest) × (fold c ≡ fold x) × (like p rest ≡ true))

-- The value holds the term, up to what units are compared by.
abbrev pub Contains : (ℕ → ℕ) → Text → Text → Type 0
Contains fold term value =
    (before : Text) × (middle : Text) × (after : Text) × (value ≡ before ++ (middle ++ after))
    × (map fold term ≡ map fold middle)

-- What stands at the start of the value, and what the rest of the pattern meets.
abbrev Starts : (ℕ → ℕ) → (Text → Bool) → Text → Text → Type 0
Starts fold rest_like term value =
    (middle : Text) × (after : Text) × (value ≡ middle ++ after)
    × (map fold term ≡ map fold middle)
    × (rest_like after ≡ true)

append_nil : (s : Text) → s ++ [] ≡ s
append_nil [] = refl
append_nil (c ∷ s) = ap (λ t. c ∷ t) (append_nil s)

module _ (fold : ℕ → ℕ) (like : Text → Text → Bool) (laws : LikeLaws fold like) where
  -- One unit of the term, escaped if it would be a wildcard.
  abbrev UnitLike : ℕ → Text → Text → Type 0
  UnitLike c p s =
      (x : ℕ) × (rest : Text) × (s ≡ x ∷ rest) × (fold c ≡ fold x) × (like p rest ≡ true)

  escaped_unit :
      (c : ℕ) (t p s : Text)
      → (like (escaped (c ∷ t) ++ p) s ≡ true) ↔ UnitLike c (escaped t ++ p) s
  unfolding escaped
  escaped_unit c t p s = elim (Bool-cases (c == b'\\' || c == b'%' || c == b'_')) [
    | inl e ↦ rw (e, escaped) (laws.like-escape c (escaped t ++ p) s)
    | inr n ↦ rw (n, escaped) (laws.like-unit c (escaped t ++ p) s n)
  ]

  escaped-Starts : (t p s : Text) → like (escaped t ++ p) s ≡ true → Starts fold (like p) t s
  unfolding escaped
  escaped-Starts [] p s h = ([], s, refl, refl, h)
  escaped-Starts (c ∷ t) p s h =
      let (x, rest, e, same, k) = (escaped_unit c t p s).0 h in
      let (middle, after, f, units, last) = escaped-Starts t p rest k in
      (x ∷ middle, after, rw e (ap (λ r. x ∷ r) f), rw (same, units) refl, last)

  Starts-escaped : (t p s : Text) → Starts fold (like p) t s → like (escaped t ++ p) s ≡ true
  unfolding escaped
  Starts-escaped [] p s ([], after, e, _, h) = rw e h
  Starts-escaped [] p s (_ ∷ _, after, e, f, h) = absurd (cc)
  Starts-escaped (c ∷ t) p s ([], after, e, f, h) = absurd (cc)
  Starts-escaped (c ∷ t) p s (x ∷ middle, after, e, f, h) =
      (escaped_unit c t p s).1 (
        x,
        middle ++ after,
        e,
        cc,
        Starts-escaped t p (middle ++ after) (middle, after, refl, cc, h),
      )

  -- A search by `lk` finds exactly the values that hold the term, unit by unit up to the case folding
  -- that `ILIKE` compares by: its `%`, `_` and `\\` stand for themselves.
  pub like_pattern_iff :
      (term value : Text) → (like (like_pattern term) value ≡ true) ↔ Contains fold term value
  like_pattern_iff term value = (
    λ h.
        let (before, rest, e, k) = (laws.like-any (escaped term ++ b'%' ∷ []) value).0 h in
        let (middle, after, f, same, _) = escaped-Starts term (b'%' ∷ []) rest k in
        (before, middle, after, e ∙ ap (λ r. before ++ r) f, same),
    λ holds.
        let (before, middle, after, e, same) = holds in
        let last =
          (laws.like-any [] after).1
            (after, [], sym (append_nil after), (laws.like-end []).1 refl) in
        (laws.like-any (escaped term ++ b'%' ∷ []) value).1 (
          before,
          middle ++ after,
          e,
          Starts-escaped term (b'%' ∷ []) (middle ++ after) (middle, after, refl, same, last),
        ),
  )
