-- ===== src/Sensitive/Masked.antt =====
-- What masking does to the values that leave the program in an error response.
use nest_order_api.Common.{
  Text, ◌≡◌, refl, subst, ◌⊎◌, inl, inr, true, false, ◌&&◌, List, Bool-cases, if◌then◌else◌,
}
use nest_order_api.Values.{
  Value, undefined, null, bool, num, date, str, arr, obj, Items, nil, cons, Fields, end, field,
}
use nest_order_api.Sensitive.{
  has_name, is_present, stars, mask_sensitive_deep, mask_items, mask_fields,
}

-- Nothing is there, or the stars.
abbrev pub IsHidden : Value → Type 0
IsHidden v = (is_present v ≡ false) ⊎ (v ≡ str stars)

-- At every depth, what stands under a registered name is hidden.
unfoldable mutual
  pub IsMasked : List Text → Value → Type 0
  IsMasked names (arr xs) = IsMaskedItems names xs
  IsMasked names (obj fs) = IsMaskedFields names fs
  IsMasked names v = Unit

  pub IsMaskedItems : List Text → Items → Type 0
  IsMaskedItems names nil = Unit
  IsMaskedItems names (cons v xs) = IsMasked names v × IsMaskedItems names xs

  pub IsMaskedFields : List Text → Fields → Type 0
  IsMaskedFields names end = Unit
  IsMaskedFields names (field key entry fs) =
      (has_name names key ≡ true → IsHidden entry) × IsMasked names entry × IsMaskedFields names fs

abbrev mask_entry : List Text → Text → Value → Value → Value
mask_entry names key entry masked =
    if has_name names key && is_present entry then str stars else masked

mask_entry-IsHidden :
    (names : List Text) (key : Text) (entry masked : Value)
    → (is_present entry ≡ false → is_present masked ≡ false)
    → has_name names key ≡ true
    → IsHidden (mask_entry names key entry masked)
mask_entry-IsHidden names key entry masked keeps h = elim (Bool-cases (is_present entry)) [
  | inl p ↦ rw (h, p) (inr refl)
  | inr n ↦ rw (h, n) (inl (keeps n))
]

mask_absent :
    (names : List Text) (v : Value)
    → is_present v ≡ false
    → is_present (mask_sensitive_deep names v) ≡ false
unfolding mask_sensitive_deep
mask_absent names undefined h = refl
mask_absent names null h = refl
mask_absent names (bool _) h = cc
mask_absent names (num _) h = cc
mask_absent names (date _) h = cc
mask_absent names (str _) h = cc
mask_absent names (arr _) h = cc
mask_absent names (obj _) h = cc

mask_entry-IsMasked :
    (names : List Text) (key : Text) (entry masked : Value)
    → IsMasked names masked
    → IsMasked names (mask_entry names key entry masked)
unfolding IsMasked
mask_entry-IsMasked names key entry masked h =
    elim (Bool-cases (has_name names key && is_present entry)) [ inl e ↦ rw e tt | inr e ↦ rw e h ]

mutual
  unfolding mask_sensitive_deep IsMasked

  IsMasked-value : (names : List Text) (v : Value) → IsMasked names (mask_sensitive_deep names v)
  IsMasked-value names (arr xs) = masked_items names xs
  IsMasked-value names (obj fs) = masked_fields names fs
  IsMasked-value names undefined = tt
  IsMasked-value names null = tt
  IsMasked-value names (bool _) = tt
  IsMasked-value names (num _) = tt
  IsMasked-value names (date _) = tt
  IsMasked-value names (str _) = tt

  masked_items : (names : List Text) (xs : Items) → IsMaskedItems names (mask_items names xs)
  masked_items names nil = tt
  masked_items names (cons v xs) = (IsMasked-value names v, masked_items names xs)

  masked_fields : (names : List Text) (fs : Fields) → IsMaskedFields names (mask_fields names fs)
  masked_fields names end = tt
  masked_fields names (field key entry fs) = (
    mask_entry-IsHidden names key entry (mask_sensitive_deep names entry) (mask_absent names entry),
    mask_entry-IsMasked names key entry (mask_sensitive_deep names entry)
        (IsMasked-value names entry),
    masked_fields names fs,
  )

-- After masking, whatever stands under a registered name is absent or the stars, at every depth.
pub mask_sensitive_deep-IsMasked :
    (names : List Text) (v : Value) → IsMasked names (mask_sensitive_deep names v)
mask_sensitive_deep-IsMasked names v = IsMasked-value names v

mask_entry_fixed :
    (names : List Text) (key : Text) (entry masked : Value)
    → (has_name names key ≡ true → IsHidden entry)
    → masked ≡ entry
    → mask_entry names key entry masked ≡ entry
mask_entry_fixed names key entry masked h e = elim (Bool-cases (has_name names key)) [
  | inl p ↦ elim (h p) [ inl gone ↦ rw (p, gone) e | inr s ↦ rw (p, s) refl ]
  | inr n ↦ rw n e
]

mutual
  unfolding mask_sensitive_deep IsMasked

  fixed_value : (names : List Text) (v : Value) → IsMasked names v → mask_sensitive_deep names v ≡ v
  fixed_value names (arr xs) h = cc (fixed_items names xs h)
  fixed_value names (obj fs) h = cc (fixed_fields names fs h)
  fixed_value names undefined h = refl
  fixed_value names null h = refl
  fixed_value names (bool _) h = refl
  fixed_value names (num _) h = refl
  fixed_value names (date _) h = refl
  fixed_value names (str _) h = refl

  fixed_items : (names : List Text) (xs : Items) → IsMaskedItems names xs → mask_items names xs ≡ xs
  fixed_items names nil h = refl
  fixed_items names (cons v xs) (hv, hs) = cc (fixed_value names v hv, fixed_items names xs hs)

  fixed_fields :
      (names : List Text) (fs : Fields) → IsMaskedFields names fs → mask_fields names fs ≡ fs
  fixed_fields names end h = refl
  fixed_fields names (field key entry fs) (hidden, inside, rest) = cc (
    mask_entry_fixed names key entry (mask_sensitive_deep names entry) hidden
        (fixed_value names entry inside),
    fixed_fields names fs rest,
  )

-- Masking changes a value exactly if something stands in clear under a registered name: it leaves
-- a value alone if and only if nothing does.
pub mask_sensitive_deep_fixed_iff :
    (names : List Text) (v : Value)
    → (IsMasked names v → mask_sensitive_deep names v ≡ v)
      × (mask_sensitive_deep names v ≡ v → IsMasked names v)
mask_sensitive_deep_fixed_iff names v =
    (fixed_value names v, λ e. subst (IsMasked names) e (IsMasked-value names v))
