-- ===== src/Effects.antt =====
-- A handler as a function of the state: it returns or throws, and the state comes back after a
-- throw too, since what was written stays written.
use nest_order_api.Common.{Bool, if◌then◌else◌, ◌≡◌, refl, ◌⊎◌, inl, inr}
use nest_order_api.Errors.{Exception}

pub data Result (A : Type 0) : Type 0 where
  ok : A → Result A
  err : Exception → Result A

abbrev pub Action : Type 0 → Type 0 → Type 0
Action S A = S → Result A × S

module _ {S A : Type 0} where
  abbrev pub pure : A → Action S A
  pure a s = (ok a, s)

  abbrev pub throw : Exception → Action S A
  throw e s = (err e, s)

  abbrev pub of_result : Result A → Action S A
  of_result r s = (r, s)

  abbrev pub gets : (S → A) → Action S A
  gets f s = (ok (f s), s)

infixl 5 ◌>>=◌ ◌>>◌
abbrev pub ◌>>=◌ : {S A B : Type 0} → Action S A → (A → Action S B) → Action S B
◌>>=◌ m f s = let (r, s') = m s in elim r [ ok a ↦ f a s' | err e ↦ throw e s' ]

abbrev pub ◌>>◌ : {S A B : Type 0} → Action S A → Action S B → Action S B
m >> k = m >>= λ _. k

-- `if (c) throw e`
abbrev pub throw_if : {S : Type 0} → Bool → Exception → Action S (Unit {0})
throw_if c e s = (if c then err e else ok tt, s)

abbrev pub modify : {S : Type 0} → (S → S) → Action S (Unit {0})
modify f s = (ok tt, f s)

pub Result-cases :
    {A : Type 0} (r : Result A) → ((e : Exception) × (r ≡ err e)) ⊎ ((a : A) × (r ≡ ok a))
Result-cases (ok a) = inr (a, refl)
Result-cases (err e) = inl (e, refl)

-- How an action ended, and the state that it left.
pub Outcome-cases :
    {A S : Type 0} (p : Result A × S)
    → ((e : Exception) × (s : S) × (p ≡ (err e, s))) ⊎ ((a : A) × (s : S) × (p ≡ (ok a, s)))
Outcome-cases (ok a, s) = inr (a, s, refl)
Outcome-cases (err e, s) = inl (e, s, refl)
