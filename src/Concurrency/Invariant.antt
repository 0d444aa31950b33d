-- ===== src/Concurrency/Invariant.antt =====
-- What holds in every reachable state: the locks do not conflict, and what was read under them is
-- still so.
use native.Mathlib.Decide.{ℕ_discrete}
use nest_order_api.Common.{ℕ, ◌<◌, ◌≡◌, refl, sym, ◌≢◌, subst, true, some}
use nest_order_api.Concurrency.{
  Job, Pc, Lock, asked, held, LockTable, granted, update, update-same, update-other, advance,
  System, turn, Step, pick, elsewhere, Reach, start, later,
}
use nest_order_api.Concurrency.Fresh.{IsFresh, Spares-IsFresh, Move-IsFresh, Move-Spares, Clear}
use nest_order_api.Concurrency.Locking.{Apart, Apart-rows, Move-Apart}
use nest_order_api.Concurrency.Moves.{advance-Move}
use nest_order_api.Concurrency.Others.{Elsewhere-Spares}
use nest_order_api.Money.{Decimal}
use nest_order_api.Orm.{Orm}
use nest_order_api.Orm.Laws.{OrmLaws}

module _ (dec : Decimal) (orm : Orm) (laws : OrmLaws orm) (locks : LockTable) (n : ℕ) where
  pub record Inv (s : System dec orm) : Type 0 where
    pub apart : Apart locks n s.pc
    pub fresh : (i : ℕ) → i < n → IsFresh orm s.db (s.pc i)

  turn-Inv :
      (s : System dec orm) (i : ℕ)
      → i < n
      → granted locks n s.pc (asked (s.pc i)) ≡ true
      → Inv s
      → Inv (turn dec orm s i)
  turn-Inv s i lt free inv = record {
    apart = apart;
    fresh = λ j lt_j. elim (ℕ_discrete i j) [
      | yes e ↦ subst (λ k. IsFresh orm db' (update s.pc i p' k)) e own
      | no ne ↦ subst (IsFresh orm db') (sym (update-other s.pc i p' j ne)) (other j lt_j ne)
    ];
  }
    where
      p' : Pc
      p' = (advance dec orm (s.pc i) s.db).0

      apart : Apart locks n (update s.pc i p')
      apart =
          Move-Apart locks dec orm n s.pc i free lt (advance-Move dec orm (s.pc i) s.db) inv.apart

      db' : orm.Db
      db' = (advance dec orm (s.pc i) s.db).1

      own : IsFresh orm db' (update s.pc i p' i)
      own =
          subst (IsFresh orm db') (sym (update-same s.pc i p'))
            (Move-IsFresh orm laws dec (advance-Move dec orm (s.pc i) s.db) (inv.fresh i lt))

      clear :
          (j : ℕ)
          → j < n
          → i ≢ j
          → (lock : Lock) → held (s.pc j) ≡ some lock
          → (a : Lock) → held (s.pc i) ≡ some a
          → Clear orm laws a lock
      clear j lt_j ne lock hj a hi = record {
        outside = Apart-rows locks n s.pc inv.apart i j lt lt_j ne a lock hi hj;
        around = λ write e.
            Apart-rows locks n s.pc inv.apart j i lt_j lt (λ k. ne (sym k)) lock a hj hi write
              (sym e);
      }

      other : (j : ℕ) → j < n → i ≢ j → IsFresh orm db' (s.pc j)
      other j lt_j ne =
          Spares-IsFresh orm laws (s.pc j)
            (λ lock hj.
              Move-Spares orm laws dec (advance-Move dec orm (s.pc i) s.db) (inv.fresh i lt) lock
                (clear j lt_j ne lock hj))
            (inv.fresh j lt_j)

  pub Step-Inv : {s t : System dec orm} → Step dec orm locks n s t → Inv s → Inv t
  Step-Inv {s} (pick i lt free) inv = turn-Inv s i lt free inv
  Step-Inv {s} (elsewhere db' h) inv = record {
    apart = inv.apart;
    fresh = λ j lt.
        Spares-IsFresh orm laws (s.pc j) (λ lock _. Elsewhere-Spares dec orm laws h lock)
          (inv.fresh j lt);
  }

  pub Reach-Inv :
      {jobs : ℕ → Job} {db : orm.Db} {s : System dec orm} → Reach dec orm locks n jobs db s → Inv s
  Reach-Inv start = record { apart = λ i j _ _ _. refl; fresh = λ i _. tt }
  Reach-Inv (later r st) = Step-Inv st (Reach-Inv r)
