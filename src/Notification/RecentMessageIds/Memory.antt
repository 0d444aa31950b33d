-- ===== src/Notification/RecentMessageIds/Memory.antt =====
-- What the bounded memory of message ids keeps.
use nest_order_api.Common.{
  ℕ, suc, ◌+◌, ◌≤◌, ◌<◌, ◌≡◌, refl, ap, sym, ◌∙◌, Text, text_eq, text_eq_refl, text_eq_iff, true,
  not, List, [], ◌∷◌, ◌++◌, length, length-append, length-keep, ltb, arith, Bool-cases, inl, inr,
}
use nest_order_api.Notification.RecentMessageIds.{has, delete, evict, add, add_all}

length-evict : (capacity : ℕ) (ids : List Text) → length (evict capacity ids) ≤ capacity
unfolding evict
length-evict capacity [] = omega arith
length-evict capacity (x ∷ ids) = ground (arith, length-evict capacity ids)

-- `x` is there, with at most `n` ids after it.
record Recent (x : Text) (n : ℕ) (ids : List Text) : Type 0 where
  before : List Text
  after : List Text
  split : ids ≡ before ++ x ∷ after
  few : length after ≤ n

has-append : (x : Text) (before after : List Text) → has x (before ++ x ∷ after) ≡ true
unfolding has
has-append x [] after = rw text_eq_refl refl
has-append x (y ∷ before) after = ground (arith, has-append x before after)

-- Eviction takes ids from the front only.
evict-append :
    (capacity : ℕ) (before kept : List Text)
    → length kept ≤ capacity
    → (rest : List Text) × (evict capacity (before ++ kept) ≡ rest ++ kept)
unfolding evict
evict-append capacity [] [] h = ([], refl)
evict-append capacity [] (x ∷ kept) h = ([], ground arith)
evict-append capacity (x ∷ before) kept h =
    elim (Bool-cases (ltb capacity (length (x ∷ before ++ kept)))) [
      | inl full ↦ let (rest, e) = evict-append capacity before kept h in (rest, rw full e)
      | inr room ↦ (x ∷ before, rw room refl)
    ]

delete-append : (y : Text) (a b : List Text) → delete y (a ++ b) ≡ delete y a ++ delete y b
unfolding delete
delete-append y [] b = refl
delete-append y (x ∷ a) b = elim (Bool-cases (text_eq x y)) [
  | inl e ↦ rw e (delete-append y a b)
  | inr n ↦ rw n (ap (λ t. x ∷ t) (delete-append y a b))
]

append_assoc : (a b c : List Text) → (a ++ b) ++ c ≡ a ++ (b ++ c)
append_assoc [] b c = refl
append_assoc (x ∷ a) b c = ap (λ t. x ∷ t) (append_assoc a b c)

added_Recent :
    (capacity : ℕ) (x : Text) (ids : List Text) → 1 ≤ capacity → Recent x 0 (add capacity x ids)
unfolding add
added_Recent capacity x ids h =
    let (rest, e) = evict-append capacity (delete x ids) (x ∷ []) (omega arith) in
    record { before = rest; after = []; split = e; few = omega arith }

-- Another id came: one more may follow `x`.
next_Recent :
    (capacity n : ℕ) (x y : Text) (ids : List Text)
    → suc (suc n) ≤ capacity
    → Recent x n ids
    → Recent x (suc n) (add capacity y ids)
unfolding add delete
next_Recent capacity n x y ids h r = elim (Bool-cases (text_eq x y)) [
  | inl e ↦
      let own : x ≡ y = (text_eq_iff x y).0 e in
      let (rest, f) = evict-append capacity (delete y ids) (y ∷ []) (omega arith) in
      record {
        before = rest;
        after = [];
        split = f ∙ ap (λ t. rest ++ t ∷ []) (sym own);
        few = omega arith;
      }
  | inr other ↦
      let after : List Text = delete y r.after ++ (y ∷ []) in
      let short : length after ≤ suc n = omega (
        arith,
        length-append {0} (delete y r.after) (y ∷ []),
        length-keep {0} (λ i. not (text_eq i y)) r.after,
        r.few,
      ) in
      let kept : delete y (x ∷ r.after) ≡ x ∷ delete y r.after = rw other refl in
      let parts : delete y ids ++ y ∷ [] ≡ delete y r.before ++ x ∷ after =
        ap (λ t. delete y t ++ y ∷ []) r.split
        ∙ ap (λ t. t ++ y ∷ []) (delete-append y r.before (x ∷ r.after))
        ∙ ap (λ t. (delete y r.before ++ t) ++ y ∷ []) kept
        ∙ append_assoc (delete y r.before) (x ∷ delete y r.after) (y ∷ []) in
      let (rest, f) =
        evict-append capacity (delete y r.before) (x ∷ after) (omega (arith, short)) in
      record { before = rest; after = after; split = ap (evict capacity) parts ∙ f; few = short }
]

all_Recent :
    (capacity n : ℕ) (x : Text) (ys ids : List Text)
    → n + length ys < capacity
    → Recent x n ids
    → has x (add_all capacity ys ids) ≡ true
unfolding add_all
all_Recent capacity n x [] ids h r = ap (has x) r.split ∙ has-append x r.before r.after
all_Recent capacity n x (y ∷ ys) ids h r =
    all_Recent capacity (suc n) x ys (add capacity y ids) (omega arith)
      (next_Recent capacity n x y ids (omega arith) r)

-- An id that was added is remembered until as many more additions as the capacity follow, and the
-- memory never holds more ids than the capacity after an addition.
pub add_remembers :
    (capacity : ℕ) (x : Text) (later ids : List Text)
    → length later < capacity
    → (has x (add_all capacity later (add capacity x ids)) ≡ true)
      × (length (add capacity x ids) ≤ capacity)
unfolding add
add_remembers capacity x later ids h = (
  all_Recent capacity 0 x later (add capacity x ids) (omega arith)
      (added_Recent capacity x ids (omega arith)),
  length-evict capacity (delete x ids ++ x ∷ []),
)
