-- ===== src/Notification/Consumer/Overlap/Tasks.antt =====
-- Sums over the messages and the tasks, and what the removal of a task leaves of them.
use nest_order_api.Common.{
  ℕ, zero, suc, ◌+◌, ◌≡◌, refl, List, [], ◌∷◌, ◌++◌, length, some, inl, inr, arith, Option-cases,
}
use nest_order_api.Notification.Consumer.Overlap.{Task, take_task}

module _ {A : Type 0} (f : A → ℕ) where
  unfoldable pub summed : List A → ℕ
  summed [] = 0
  summed (x ∷ xs) = f x + summed xs

  pub summed-append : (xs ys : List A) → summed (xs ++ ys) ≡ summed xs + summed ys
  unfolding summed
  summed-append [] ys = omega arith
  summed-append (x ∷ xs) ys = omega (arith, summed-append xs ys)

found_same : {a b : Task × List Task} → some a ≡ some b → a ≡ b
found_same h = cc

pub summed-take_task :
    (f : Task → ℕ) (i : ℕ) (ts : List Task) (found : Task × List Task)
    → take_task i ts ≡ some found
    → summed f ts ≡ f found.0 + summed f found.1
unfolding summed take_task
summed-take_task f i [] found h = cc
summed-take_task f zero (x ∷ ts) found h = rw (← found_same h) refl
summed-take_task f (suc i) (x ∷ ts) found h = elim (Option-cases (take_task i ts)) [
  | inl e ↦ absurd (cc (rw e at h))
  | inr (k, e) ↦ rw (← found_same (rw e at h)) (omega (arith, summed-take_task f i ts k e))
]

length-summed : (ts : List Task) → summed (λ _. 1) ts ≡ length ts
unfolding summed
length-summed [] = refl
length-summed (t ∷ ts) = omega (arith, length-summed ts)

pub length-take_task :
    (i : ℕ) (ts : List Task) (found : Task × List Task)
    → take_task i ts ≡ some found
    → length ts ≡ length found.1 + 1
length-take_task i ts found h =
    omega (arith, summed-take_task (λ _. 1) i ts found h, length-summed ts, length-summed found.1)
