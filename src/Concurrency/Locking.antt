-- ===== src/Concurrency/Locking.antt =====
-- Two transactions never hold conflicting locks.
use native.Mathlib.Decide.{dec_lt, ℕ_discrete}
use nest_order_api.Common.{
  ℕ, zero, suc, ◌<◌, ◌≡◌, refl, sym, ◌≢◌, ◌∙◌, Text, text_eq, text_eq_refl, text_eq_iff, Bool, true,
  false, not, ◌&&◌, Option, none, some, ◌⊎◌, inl, inr, arith,
}
use nest_order_api.Concurrency.{Pc, Lock, asked, held, LockTable, clash, granted, update}
use nest_order_api.Concurrency.Moves.{
  Move, refused, shared, owned, inserted, occupied, unoccupied, updated, rested,
}
use nest_order_api.Money.{Decimal}
use nest_order_api.Orm.{Orm, pessimistic_write}

module _ (dec : Decimal) (orm : Orm) where
  -- A statement ends the transaction, keeps its lock or gets the one that it asked for.
  pub Move-held :
      {db db' : orm.Db} {p p' : Pc}
      → Move dec orm db p p' db'
      → (held p' ≡ none) ⊎ (held p' ≡ held p) ⊎ (held p' ≡ asked p)
  Move-held (refused _) = inl refl
  Move-held (shared _) = inr (inr refl)
  Move-held (owned _) = inr (inr refl)
  Move-held (inserted _) = inl refl
  Move-held (occupied _) = inl refl
  Move-held (unoccupied _) = inr (inl refl)
  Move-held (updated _) = inl refl
  Move-held rested = inl refl

text_eq_comm : (a b : Text) → text_eq a b ≡ text_eq b a
text_eq_comm a b = ground (arith, text_eq_iff a b, text_eq_iff b a)

both : (a b : Bool) → (not a && b) ≡ true → (a ≡ false) × (b ≡ true)
both a b h = ground arith

module _ (locks : LockTable) where
  granted-clash :
      (n : ℕ) (pc : ℕ → Pc) (lock : Option Lock)
      → granted locks n pc lock ≡ true
      → (j : ℕ) → j < n
      → clash locks (held (pc j)) lock ≡ false
  unfolding granted
  granted-clash zero pc lock h j lt = absurd (omega arith)
  granted-clash (suc n) pc lock h j lt =
      let (here, before) = both (clash locks (held (pc n)) lock) (granted locks n pc lock) h in
      elim (dec_lt j n) [
        | yes below ↦ granted-clash n pc lock before j below
        | no last ↦ let e : j ≡ n = omega arith in rw e here
      ]

  clash-none : (a : Option Lock) → clash locks a none ≡ false
  clash-none none = refl
  clash-none (some a) = refl

  clash_comm : (a b : Option Lock) → clash locks a b ≡ clash locks b a
  clash_comm none none = refl
  clash_comm none (some b) = refl
  clash_comm (some a) none = refl
  clash_comm (some a) (some b) =
      rw (text_eq_comm a.row b.row, locks.conflicts_comm a.mode b.mode) refl

  -- Transactions apart from each other hold locks that do not conflict.
  abbrev pub Apart : ℕ → (ℕ → Pc) → Type 0
  Apart n pc = (i j : ℕ) → i < n → j < n → i ≢ j → clash locks (held (pc i)) (held (pc j)) ≡ false

  -- The transaction `i` goes on, and what it holds then conflicts with no other.
  Apart-update :
      (n : ℕ) (pc : ℕ → Pc) (i : ℕ) (p' : Pc)
      → Apart n pc
      → ((j : ℕ) → j < n → i ≢ j → clash locks (held (pc j)) (held p') ≡ false)
      → Apart n (update pc i p')
  Apart-update n pc i p' apart new a b lt_a lt_b ne = elim (ℕ_discrete i a) [
    | yes e ↦ elim (ℕ_discrete i b) [
      | yes f ↦ absurd (ne (sym e ∙ f))
      | no f ↦ ground (arith, new b lt_b f, clash_comm (held (pc b)) (held p'))
    ]
    | no e ↦ elim (ℕ_discrete i b) [
      | yes f ↦ ground (arith, new a lt_a e)
      | no f ↦ ground (arith, apart a b lt_a lt_b ne)
    ]
  ]

  module _ (dec : Decimal) (orm : Orm) where
    -- A granted statement keeps the transactions apart.
    pub Move-Apart :
        (n : ℕ) (pc : ℕ → Pc) (i : ℕ) {db db' : orm.Db} {p' : Pc}
        → granted locks n pc (asked (pc i)) ≡ true
        → i < n
        → Move dec orm db (pc i) p' db'
        → Apart n pc
        → Apart n (update pc i p')
    Move-Apart n pc i {p' = p'} free lt mv apart = Apart-update n pc i p' apart (λ j lt_j ne.
        elim (Move-held dec orm mv) [
          | inl e ↦ rw e (clash-none (held (pc j)))
          | inr k ↦ elim k [
            | inl e ↦ rw e (apart j i lt_j lt (λ f. ne (sym f)))
            | inr e ↦ rw e (granted-clash n pc (asked (pc i)) free j lt_j)
          ]
        ])

  -- Of two transactions apart, one that holds the row of a deletion excludes the other from it.
  pub Apart-rows :
      (n : ℕ) (pc : ℕ → Pc)
      → Apart n pc
      → (i j : ℕ) → i < n
      → j < n
      → i ≢ j
      → (a b : Lock) → held (pc i) ≡ some a
      → held (pc j) ≡ some b
      → a.mode ≡ pessimistic_write
      → a.row ≢ b.row
  Apart-rows n pc apart i j lt_i lt_j ne a b ha hb write same =
      let free = apart i j lt_i lt_j ne in
      let met : clash locks (held (pc i)) (held (pc j)) ≡ true =
        rw (ha, hb, write, same, text_eq_refl b.row, locks.write-conflicts b.mode) refl in
      absurd (cc)
