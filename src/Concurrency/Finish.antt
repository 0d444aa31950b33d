-- ===== src/Concurrency/Finish.antt =====
-- No deadlock: a transaction holds a lock only between its first statement and its end, and asks
-- for one only, so a transaction that holds a lock never waits.
use native.Mathlib.Decide.{dec_lt}
use nest_order_api.Common.{
  ℕ, zero, suc, ◌+◌, ◌<◌, ◌≤◌, ◌≡◌, refl, ◌≢◌, true, false, none, ◌⊎◌, inl, inr, arith, Bool-cases,
  Option-cases,
}
use nest_order_api.Concurrency.{
  Job, Pc, waiting, inserting, checking, updating, done, job_of, asked, held, LockTable, clash,
  granted, update, update-same, update-other, System, turn, pick, Reach, later,
}
use nest_order_api.Concurrency.Moves.{
  Move, refused, shared, owned, inserted, occupied, unoccupied, updated, rested, advance-Move,
}
use nest_order_api.Money.{Decimal}
use nest_order_api.Orm.{Orm}

-- How many statements may be left.
abbrev left : Pc → ℕ
left (waiting job) = 3
left (checking store now id) = 2
left (inserting store now dto c) = 1
left (updating store now id) = 1
left (done reply) = 0

left-job_of : (p : Pc) → left p ≡ 0 → job_of p ≡ none
left-job_of (done reply) h = refl
left-job_of (waiting _) h = absurd (omega arith)
left-job_of (checking _ _ _) h = absurd (omega arith)
left-job_of (inserting _ _ _ _) h = absurd (omega arith)
left-job_of (updating _ _ _) h = absurd (omega arith)

Move-left :
    {dec : Decimal} {orm : Orm} {db db' : orm.Db} {p p' : Pc}
    → Move dec orm db p p' db'
    → 0 < left p
    → left p' < left p
Move-left (refused _) h = omega arith
Move-left (shared _) h = omega arith
Move-left (owned _) h = omega arith
Move-left (inserted _) h = omega arith
Move-left (occupied _) h = omega arith
Move-left (unoccupied _) h = omega arith
Move-left (updated _) h = omega arith
Move-left rested h = absurd (omega arith)

-- The statements left to the first `n` transactions.
work : ℕ → (ℕ → Pc) → ℕ
work zero pc = 0
work (suc n) pc = left (pc n) + work n pc

work-update_above :
    (n : ℕ) (pc : ℕ → Pc) (i : ℕ) (p : Pc) → n ≤ i → work n (update pc i p) ≡ work n pc
unfolding work
work-update_above zero pc i p h = refl
work-update_above (suc n) pc i p h =
    ground (arith, work-update_above n pc i p (omega arith), update-other pc i p n (omega arith))

work-update :
    (n : ℕ) (pc : ℕ → Pc) (i : ℕ) (p : Pc)
    → i < n
    → left p < left (pc i)
    → work n (update pc i p) < work n pc
unfolding work
work-update zero pc i p h less = absurd (omega arith)
work-update (suc n) pc i p h less = elim (dec_lt i n) [
  | yes below ↦ ground (arith, work-update n pc i p below less, update-other pc i p n (omega arith))
  | no top ↦ ground (arith, work-update_above n pc i p (omega arith), update-same pc i p)
]

unfinished-cases :
    (n : ℕ) (pc : ℕ → Pc)
    → ((i : ℕ) → i < n → left (pc i) ≡ 0) ⊎ ((i : ℕ) × (i < n) × (0 < left (pc i)))
unfinished-cases zero pc = inl (λ i h. absurd (omega arith))
unfinished-cases (suc n) pc = elim (dec_lt 0 (left (pc n))) [
  | yes more ↦ inr (n, omega arith, more)
  | no over ↦ elim (unfinished-cases n pc) [
    | inr (i, h, more) ↦ inr (i, omega arith, more)
    | inl all_over ↦ inl (λ i h. elim (dec_lt i n) [
      | yes below ↦ all_over i below
      | no top ↦
          let e : i ≡ n = omega arith in
          let zero_left : left (pc n) ≡ 0 = omega arith in rw e zero_left
    ])
  ]
]

module _ (locks : LockTable) where
  -- A lock that is not granted is held by another.
  refused_by :
      (n : ℕ) (pc : ℕ → Pc) (i : ℕ)
      → granted locks n pc (asked (pc i)) ≡ false
      → (j : ℕ) × (j < n) × (held (pc j) ≢ none)
  unfolding granted
  refused_by zero pc i h = cc
  refused_by (suc n) pc i h = elim (Bool-cases (clash locks (held (pc n)) (asked (pc i)))) [
    | inl met ↦ (n, omega arith, λ e. cc (rw e at met))
    | inr free ↦ let (j, lt, holds) = refused_by n pc i (rw free at h) in (j, omega arith, holds)
  ]

  granted-none : (n : ℕ) (pc : ℕ → Pc) → granted locks n pc none ≡ true
  unfolding granted
  granted-none zero pc = refl
  granted-none (suc n) pc = elim (Option-cases (held (pc n))) [
    | inl e ↦ rw e (granted-none n pc)
    | inr (a, e) ↦ rw e (granted-none n pc)
  ]

  granted_holder :
      (n : ℕ) (pc : ℕ → Pc) (p : Pc)
      → held p ≢ none
      → (granted locks n pc (asked p) ≡ true) × (0 < left p)
  granted_holder n pc (waiting job) h = absurd (h refl)
  granted_holder n pc (done reply) h = absurd (h refl)
  granted_holder n pc p h = (granted-none n pc, omega arith)

  -- Some transaction can send its next statement while one has not ended.
  no_deadlock :
      (n : ℕ) (pc : ℕ → Pc) (i : ℕ)
      → i < n
      → 0 < left (pc i)
      → (k : ℕ) × (k < n) × (0 < left (pc k)) × (granted locks n pc (asked (pc k)) ≡ true)
  no_deadlock n pc i lt more = elim (Bool-cases (granted locks n pc (asked (pc i)))) [
    | inl free ↦ (i, lt, more, free)
    | inr stuck ↦
        let (j, lt_j, holds) = refused_by n pc i stuck in
        let (free, more_j) = granted_holder n pc (pc j) holds in (j, lt_j, more_j, free)
  ]

module _ (dec : Decimal) (orm : Orm) (locks : LockTable) (n : ℕ) (jobs : ℕ → Job)
    (db : orm.Db) where
  -- The turns of the transactions until all have ended.
  pub data Turns : System dec orm → System dec orm → Type 0 where
    over : {s : System dec orm} → Turns s s
    next :
        (k : ℕ) {s t : System dec orm}
        → k < n
        → granted locks n s.pc (asked (s.pc k)) ≡ true
        → Turns (turn dec orm s k) t
        → Turns s t

  Turns-Reach :
      {s t : System dec orm}
      → Reach dec orm locks n jobs db s
      → Turns s t
      → Reach dec orm locks n jobs db t
  Turns-Reach r over = r
  Turns-Reach r (next k lt free more) = Turns-Reach (later r (pick k lt free)) more

  turn_less :
      (s : System dec orm) (k : ℕ)
      → k < n
      → 0 < left (s.pc k)
      → work n (turn dec orm s k).pc < work n s.pc
  turn_less s k lt more =
      work-update n s.pc k _ lt (Move-left (advance-Move dec orm (s.pc k) s.db) more)

  pub Ended : System dec orm → Type 0
  Ended s = (t : System dec orm) × Turns s t × ((i : ℕ) → i < n → job_of (t.pc i) ≡ none)

  ends : (fuel : ℕ) (s : System dec orm) → work n s.pc ≤ fuel → Ended s
  unfolding Ended
  ends zero s h = elim (unfinished-cases n s.pc) [
    | inl all_over ↦ (s, over, λ i lt. left-job_of (s.pc i) (all_over i lt))
    | inr (i, lt, more) ↦ absurd (omega (arith, turn_less s i lt more))
  ]
  ends (suc fuel) s h = elim (unfinished-cases n s.pc) [
    | inl all_over ↦ (s, over, λ i lt. left-job_of (s.pc i) (all_over i lt))
    | inr (i, lt, more) ↦
        let (k, lt_k, more_k, free) = no_deadlock locks n s.pc i lt more in
        let (t, turns, all_over) =
          ends fuel (turn dec orm s k) (omega (arith, turn_less s k lt_k more_k)) in
        (t, next k lt_k free turns, all_over)
  ]

  -- From every reachable state the transactions can all be brought to their ends, whatever they
  -- wait for: another state is reachable, by turns of theirs alone, in which each has its reply.
  pub Reach-ends :
      (s : System dec orm)
      → Reach dec orm locks n jobs db s
      → (t : System dec orm) × Turns s t
        × Reach dec orm locks n jobs db t
        × ((i : ℕ) → i < n → job_of (t.pc i) ≡ none)
  unfolding Ended
  Reach-ends s r =
      let (t, turns, all_over) = ends (work n s.pc) s (omega arith) in
      (t, turns, Turns-Reach r turns, all_over)
