-- ===== src/Examples/Rows.antt =====
-- A table in memory: its rows, the latest version of a row first.
use mathlib.Core.Option
use nest_order_api.Common.{
  Text, ◌≡◌, refl, ◌≢◌, sym, Bool, true, false, ◌||◌, List, [], ◌∷◌, map, Option, none, some,
  text_eq, text_eq_iff, text_eq_refl, text_ne, arith, Bool-cases, Option-cases, inl, inr,
  if◌then◌else◌,
}

or_false : (a b : Bool) → (a || b) ≡ false → (a ≡ false) × (b ≡ false)
or_false a b h = ground arith

module _ {E : Type 0} (key : E → Text) where
  abbrev pub lookup : Text → List E → Option E
  lookup id [] = none
  lookup id (r ∷ rs) = if text_eq (key r) id then some r else lookup id rs

  pub lookup-key : (id : Text) (rs : List E) (r : E) → lookup id rs ≡ some r → key r ≡ id
  lookup-key id [] r h = cc
  lookup-key id (x ∷ rs) r h = elim (Bool-cases (text_eq (key x) id)) [
    | inl e ↦
        let found : some x ≡ some r = rw e at h in
        let same : x ≡ r = cc in rw (← same) ((text_eq_iff (key x) id).0 e)
    | inr n ↦ lookup-key id rs r (rw n at h)
  ]

  pub lookup-cons_self : (r : E) (rs : List E) → lookup (key r) (r ∷ rs) ≡ some r
  lookup-cons_self r rs = rw text_eq_refl refl

  pub lookup-cons_ne :
      (id : Text) (r : E) (rs : List E) → id ≢ key r → lookup id (r ∷ rs) ≡ lookup id rs
  lookup-cons_ne id r rs n = rw (text_ne (key r) id (λ e. n (sym e))) refl

  pub lookup-map :
      (f : E → E)
      → ((r : E) → key (f r) ≡ key r)
      → (id : Text) (rs : List E) → lookup id (map f rs) ≡ Option.map f (lookup id rs)
  lookup-map f keeps id [] = refl
  lookup-map f keeps id (r ∷ rs) = elim (Bool-cases (text_eq (key r) id)) [
    | inl e ↦ rw (keeps r, e) refl
    | inr n ↦ rw (keeps r, n) (lookup-map f keeps id rs)
  ]

  abbrev pub holds : (E → Bool) → Option E → Bool
  holds p none = false
  holds p (some r) = p r

  -- Some current row satisfies the test; `rs` are the rows that are left to look at.
  abbrev pub exists_in : (E → Bool) → List E → List E → Bool
  exists_in p rows [] = false
  exists_in p rows (r ∷ rs) = holds p (lookup (key r) rows) || exists_in p rows rs

  pub exists_in-true :
      (p : E → Bool) (rows rs : List E)
      → exists_in p rows rs ≡ true
      → (id : Text) × (r : E) × (lookup id rows ≡ some r) × (p r ≡ true)
  exists_in-true p rows [] h = cc
  exists_in-true p rows (x ∷ rs) h = elim (Option-cases (lookup (key x) rows)) [
    | inl e ↦ exists_in-true p rows rs (rw e at h)
    | inr (r, e) ↦ elim (Bool-cases (p r)) [
      | inl t ↦ (key x, r, e, t)
      | inr f ↦ exists_in-true p rows rs (rw (e, f) at h)
    ]
  ]

  pub exists_in-false :
      (p : E → Bool) (rows rs : List E) (id : Text) (c : E)
      → exists_in p rows rs ≡ false
      → lookup id rs ≡ some c
      → holds p (lookup id rows) ≡ false
  exists_in-false p rows [] id c h at = cc
  exists_in-false p rows (x ∷ rs) id c h at =
      let (here, later) = or_false (holds p (lookup (key x) rows)) (exists_in p rows rs) h in
      elim (Bool-cases (text_eq (key x) id)) [
        | inl e ↦ rw (← (text_eq_iff (key x) id).0 e) here
        | inr n ↦ exists_in-false p rows rs id c later (rw n at at)
      ]
