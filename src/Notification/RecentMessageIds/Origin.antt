-- ===== src/Notification/RecentMessageIds/Origin.antt =====
-- Where a remembered id comes from.
use nest_order_api.Common.{
  ℕ, ◌≡◌, refl, Text, text_eq, true, List, [], ◌∷◌, ◌++◌, length, ltb, ◌⊎◌, inl, inr, arith,
  Bool-cases,
}
use nest_order_api.Notification.RecentMessageIds.{has, delete, evict, add}

has-evict : (id : Text) (n : ℕ) (ids : List Text) → has id (evict n ids) ≡ true → has id ids ≡ true
unfolding has evict
has-evict id n [] h = cc
has-evict id n (x ∷ ids) h = elim (Bool-cases (ltb n (length (x ∷ ids)))) [
  | inl e ↦ ground (arith, has-evict id n ids (rw e at h))
  | inr e ↦ rw e at h
]

has-delete : (id y : Text) (ids : List Text) → has id (delete y ids) ≡ true → has id ids ≡ true
unfolding has delete
has-delete id y [] h = cc
has-delete id y (x ∷ ids) h = elim (Bool-cases (text_eq x y)) [
  | inl e ↦ ground (arith, has-delete id y ids (rw e at h))
  | inr e ↦ elim (Bool-cases (text_eq x id)) [
    | inl f ↦ rw f refl
    | inr f ↦ rw f (has-delete id y ids (rw (e, f) at h))
  ]
]

has-snoc :
    (id y : Text) (ids : List Text)
    → has id (ids ++ y ∷ []) ≡ true
    → (has id ids ≡ true) ⊎ (text_eq y id ≡ true)
unfolding has
has-snoc id y [] h = inr (ground arith)
has-snoc id y (x ∷ ids) h = elim (Bool-cases (text_eq x id)) [
  | inl f ↦ inl (rw f refl)
  | inr f ↦ elim (has-snoc id y ids (rw f at h)) [ inl g ↦ inl (rw f g) | inr g ↦ inr g ]
]

-- A remembered id was remembered before or has just been added.
pub has-add :
    (id y : Text) (n : ℕ) (ids : List Text)
    → has id (add n y ids) ≡ true
    → (has id ids ≡ true) ⊎ (text_eq y id ≡ true)
unfolding add
has-add id y n ids h = elim (has-snoc id y (delete y ids) (has-evict id n _ h)) [
  | inl g ↦ inl (has-delete id y ids g)
  | inr g ↦ inr g
]
