-- ===== src/Service/Ready.antt =====
-- The waiting for Hadoop (hadoop/cloud/service.py) succeeds once there are enough tasktrackers.
use mathlib.Core.Path.{subst}
use native.Mathlib.Decide.{dec_lt}
use ec2_wrappers.Prelude.{ℕ, zero, suc, ◌+◌, ◌-◌, ◌≤◌, ◌<◌, true, false, some, Result}
use ec2_wrappers.Prelude.{ok, raised, ◌≡◌, refl, sym, arith, leb, ltb, inl, inr, ◌⊎◌}
use ec2_wrappers.Prelude.{Bool-cases, Result-cases}
use ec2_wrappers.Service.Hadoop.{
  Polls, is_io_error, wait_jobtracker, wait_tasktrackers, wait_for_hadoop,
}

-- An answer that keeps the loops going: a number, or an IOError.
abbrev pub Tolerated : Result ℕ → Type 0
Tolerated (ok running) = Unit {0}
Tolerated (raised e) = is_io_error e ≡ true

module _ (polls : Polls) (number limit n running : ℕ)
    (monotone : (a b : ℕ) → a ≤ b → polls.clock a ≤ polls.clock b)
    (answers : (k : ℕ) → k < n → Tolerated (polls.tasktrackers k))
    (last : polls.tasktrackers n ≡ ok running) (enough : number ≤ running)
    (early : polls.clock n < polls.clock 0 + limit) where
  in_time : (m : ℕ) → m ≤ n → leb limit (polls.clock m - polls.clock 0) ≡ false
  in_time m h = ground (arith, monotone m n, monotone 0 n)

  satisfied : ltb running number ≡ false
  satisfied = ground arith

  same_turn : (m : ℕ) → m ≤ n → (m < n) ⊎ (n ≡ m)
  same_turn m h = elim (dec_lt m n) [ yes p ↦ inl p | no p ↦ inr (omega arith) ]

  -- The first loop gives a number that is enough, or one from before turn `n`.
  wait_jobtracker_answers :
      (fuel m : ℕ)
      → m ≤ n
      → n < fuel + m
      → (k r : ℕ) × (wait_jobtracker fuel polls (polls.clock 0) limit m ≡ some (ok (k, r)))
        × ((k < n) ⊎ (r ≡ running))
  unfolding wait_jobtracker
  wait_jobtracker_answers zero m h f = absurd (omega arith)
  wait_jobtracker_answers (suc fuel) m h f = rw (in_time m h) (elim (same_turn m h) [
    | inr e ↦
        let p : (polls.tasktrackers m ≡ ok running) =
          subst (λ k. polls.tasktrackers k ≡ ok running) e last in
        rw p (m, running, refl, inr refl)
    | inl b ↦ elim (Result-cases (polls.tasktrackers m)) [
      | inl (r, e) ↦ rw e (m, r, refl, inl b)
      | inr (x, e) ↦
          let kept : (is_io_error x ≡ true) = subst Tolerated e (answers m b) in
          rw (e, kept) (wait_jobtracker_answers fuel (suc m) b (omega arith))
    ]
  ])

  wait_tasktrackers_done :
      (fuel m : ℕ)
      → wait_tasktrackers (suc fuel) polls (polls.clock 0) limit number m running ≡ some (ok tt)
  unfolding wait_tasktrackers
  wait_tasktrackers_done fuel m = rw satisfied refl

  wait_tasktrackers_succeeds :
      (fuel m r : ℕ)
      → m ≤ n
      → n + 1 < fuel + m
      → wait_tasktrackers fuel polls (polls.clock 0) limit number m r ≡ some (ok tt)
  unfolding wait_tasktrackers
  wait_tasktrackers_succeeds zero m r h f = absurd (omega arith)
  wait_tasktrackers_succeeds (suc zero) m r h f = absurd (omega arith)
  wait_tasktrackers_succeeds (suc (suc fuel)) m r h f = elim (Bool-cases (ltb r number)) [
    | inr c ↦ rw c refl
    | inl c ↦
        rw (c, in_time m h)
          (elim (same_turn m h) [
            | inr e ↦
                let p : (polls.tasktrackers m ≡ ok running) =
                  subst (λ k. polls.tasktrackers k ≡ ok running) e last in
                rw p (wait_tasktrackers_done fuel (suc m))
            | inl b ↦ elim (Result-cases (polls.tasktrackers m)) [
              | inl (now, e) ↦
                  rw e (wait_tasktrackers_succeeds (suc fuel) (suc m) now b (omega arith))
              | inr (x, e) ↦
                  let kept : (is_io_error x ≡ true) = subst Tolerated e (answers m b) in
                  rw (e, kept) (wait_tasktrackers_succeeds (suc fuel) (suc m) r b (omega arith))
            ]
          ])
  ]

  -- Once the jobtracker reports enough tasktrackers before the limit, with a clock that never goes
  -- back, and has answered with a number or an IOError until then: `_wait_for_hadoop` returns without
  -- an exception, within one turn more.
  pub wait_for_hadoop_succeeds :
      (fuel : ℕ) → 0 < n → n + 1 < fuel → wait_for_hadoop fuel polls number limit ≡ some (ok tt)
  unfolding wait_for_hadoop
  wait_for_hadoop_succeeds zero h f = elim f [ ]
  wait_for_hadoop_succeeds (suc fuel) h f =
      let (k, r, e, met) = wait_jobtracker_answers (suc fuel) 1 h (omega arith) in
      rw (e, wait_for_hadoop)
        (elim met [
          | inl b ↦ wait_tasktrackers_succeeds (suc fuel) (suc k) r b (omega arith)
          | inr same ↦
              subst
                (λ x.
                  wait_tasktrackers (suc fuel) polls (polls.clock 0) limit number (suc k) x
                  ≡ some (ok tt))
                (sym same) (wait_tasktrackers_done fuel (suc k))
        ])
