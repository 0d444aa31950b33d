-- ===== src/Examples/Outcomes.antt =====
-- Outcomes of the same shape.
use nest_order_api.Common.{◌≡◌}
use nest_order_api.Effects.{Result, ok, err}
use nest_order_api.Errors.{Exception}
use nest_order_api.Examples.Memory.{Memory}

pub ok_inj :
    {A : Type 0} {a b : A} {s t : Memory}
    → (◌≡◌ {A = Result A × Memory} (ok a, s) (ok b, t))
    → (a ≡ b) × (s ≡ t)
ok_inj h = (cc, cc)

pub ok_err :
    {A B : Type 0} {a : A} {e : Exception} {s t : Memory}
    → (◌≡◌ {A = Result A × Memory} (ok a, s) (err e, t))
    → B
ok_err h = cc

pub err_ok :
    {A B : Type 0} {a : A} {e : Exception} {s t : Memory}
    → (◌≡◌ {A = Result A × Memory} (err e, s) (ok a, t))
    → B
err_ok h = cc

pub err_same :
    {A : Type 0} {e f : Exception} {s t : Memory}
    → (◌≡◌ {A = Result A × Memory} (err e, s) (err f, t))
    → t ≡ s
err_same h = cc
