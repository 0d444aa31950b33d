-- ===== src/Fallible.antt =====
-- Results as values: a chain of steps of which each may throw, with no state.
use nest_order_api.Common.{Bool, true, false, if◌then◌else◌, ◌≡◌, refl}
use nest_order_api.Effects.{Result, ok, err}
use nest_order_api.Errors.{Exception}

infixl 5 ◌>>=◌ ◌>>◌
abbrev pub ◌>>=◌ : {A B : Type 0} → Result A → (A → Result B) → Result B
err thrown >>= next = err thrown
ok x >>= next = next x

abbrev pub ◌>>◌ : {A B : Type 0} → Result A → Result B → Result B
m >> k = m >>= λ _. k

-- `if (c) throw e`
abbrev pub throw_when : Bool → Exception → Result (Unit {0})
throw_when c e = if c then err e else ok tt

-- A chain that returned did each of its steps.
pub >>=-eq-ok :
    {A B : Type 0} (step : Result A) (next : A → Result B) {out : B}
    → (step >>= next) ≡ ok out
    → (x : A) × (step ≡ ok x) × (next x ≡ ok out)
>>=-eq-ok (err thrown) next returned = cc
>>=-eq-ok (ok x) next returned = (x, refl, returned)

pub ok_same : {A : Type 0} {a b : A} → ◌≡◌ {A = Result A} (ok a) (ok b) → a ≡ b
ok_same h = cc

-- A guard that let the rest run did not hold.
pub guard_passed :
    {A : Type 0} (b : Bool) (e : Exception) (m : Result A) {a : A}
    → (throw_when b e >> m) ≡ ok a
    → (b ≡ false) × (m ≡ ok a)
guard_passed true e m h = absurd (cc)
guard_passed false e m h = (refl, h)
