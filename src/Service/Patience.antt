-- ===== src/Service/Patience.antt =====
-- The waiting for Hadoop (hadoop/cloud/service.py) ends.
use ec2_wrappers.Prelude.{ℕ, zero, suc, ◌+◌, ◌-◌, ◌≤◌, ◌<◌, false, Option, some, Result}
use ec2_wrappers.Prelude.{ok, raised, Exn, timeout, ◌≡◌, refl, ap, arith, leb, ltb, inl, inr}
use ec2_wrappers.Prelude.{nat_eq, ◌==◌, eq_of_==, Bool-cases, Result-cases}
use ec2_wrappers.Prelude.{sym}
use mathlib.Core.Path.{subst}
use native.Mathlib.Decide.{dec_lt}
use ec2_wrappers.Service.Hadoop.{
  Polls, is_io_error, wait_jobtracker, wait_tasktrackers, wait_for_hadoop,
}

module _ (polls : Polls) (number limit : ℕ) where
  -- The limit is reached in a turn.
  abbrev pub IsLate : ℕ → Type 0
  IsLate n = limit ≤ polls.clock n - polls.clock 0

  -- The limit is not reached in a turn, and no page of it reports enough tasktrackers.
  abbrev pub IsWaiting : ℕ → Type 0
  IsWaiting n =
      (leb limit (polls.clock n - polls.clock 0) ≡ false)
      × ((running : ℕ) → polls.tasktrackers n ≡ ok running → running < number)

  abbrev pub Passed : ℕ → Type 0
  Passed n = (k : ℕ) → 1 ≤ k → k < n → IsWaiting k

  -- All turns before `n`, but for `m`.
  abbrev PassedBut : ℕ → ℕ → Type 0
  PassedBut m n = (k : ℕ) → 1 ≤ k → k < n → (k == m) ≡ false → IsWaiting k

  Passed-next : (n : ℕ) → Passed n → IsWaiting n → Passed (suc n)
  Passed-next n before here k h l = elim (dec_lt k n) [
    | yes b ↦ before k h b
    | no b ↦ let same : (n ≡ k) = omega arith in subst IsWaiting same here
  ]

  Passed-but :
      (m n running : ℕ)
      → PassedBut m n
      → leb limit (polls.clock m - polls.clock 0) ≡ false
      → polls.tasktrackers m ≡ ok running
      → running < number
      → Passed n
  Passed-but m n running before early p few k h l = elim (Bool-cases (k == m)) [
    | inr b ↦ before k h l b
    | inl b ↦
        let same : (m ≡ k) = sym (eq_of_== k m b) in
        subst IsWaiting same (early, λ r e. let e' : (r ≡ running) = cc (e, p) in omega (arith, e'))
  ]

  -- How the waiting ends: with enough tasktrackers (none are needed for 0), in the first turn in which
  -- the limit is reached, with too few in all turns before, or with an exception that is no IOError.
  pub data Ends : Result (Unit {0}) → Type 0 where
    enough : (n running : ℕ) → polls.tasktrackers n ≡ ok running → number ≤ running → Ends (ok tt)
    timed_out : (n : ℕ) → IsLate n → Passed n → Ends (raised timeout)
    refused :
        (n : ℕ) (e : Exn)
        → polls.tasktrackers n ≡ raised e
        → is_io_error e ≡ false
        → Ends (raised e)

  abbrev pub Finished : Option (Result (Unit {0})) → Type 0
  Finished o = (r : Result (Unit {0})) × (o ≡ some r) × Ends r

  -- How the first loop ends, before turn `last` is over.
  data Answers (last : ℕ) : Result (ℕ × ℕ) → Type 0 where
    answered :
        (n running : ℕ)
        → polls.tasktrackers n ≡ ok running
        → n < last
        → leb limit (polls.clock n - polls.clock 0) ≡ false
        → Passed n
        → Answers last (ok (n, running))
    late : (n : ℕ) → IsLate n → Passed n → Answers last (raised timeout)
    broken :
        (n : ℕ) (e : Exn)
        → polls.tasktrackers n ≡ raised e
        → is_io_error e ≡ false
        → Answers last (raised e)

  module _ (last : ℕ) (ends : IsLate last) where
    -- Before the limit is reached, the last turn is still ahead.
    before_last : (n : ℕ) → leb limit (polls.clock n - polls.clock 0) ≡ false → n ≤ last → n < last
    before_last n b h = elim (Bool-cases (n == last)) [
      | inl e ↦ let p = eq_of_== n last e in let q = ap polls.clock p in ground arith
      | inr e ↦ ground arith
    ]

    wait_jobtracker-Answers :
        (fuel n : ℕ)
        → n ≤ last
        → last < fuel + n
        → Passed n
        → (r : Result (ℕ × ℕ)) × (wait_jobtracker fuel polls (polls.clock 0) limit n ≡ some r)
          × Answers last r
    unfolding wait_jobtracker
    wait_jobtracker-Answers zero n h f passed = absurd (omega arith)
    wait_jobtracker-Answers (suc fuel) n h f passed =
        elim (Bool-cases (leb limit (polls.clock n - polls.clock 0))) [
          | inl b ↦ rw b (raised timeout, refl, late n (ground arith) passed)
          | inr b ↦
              let before : (n < last) = before_last n b h in
              rw b (elim (Result-cases (polls.tasktrackers n)) [
                | inl (running, k) ↦
                    rw k (ok (n, running), refl, answered n running k before b passed)
                | inr (e, k) ↦ elim (Bool-cases (is_io_error e)) [
                  | inl i ↦
                      rw (k, i)
                        (wait_jobtracker-Answers fuel (suc n) before (omega arith)
                          (Passed-next n passed (b, λ running x. absurd (cc (x, k)))))
                  | inr i ↦ rw (k, i) (raised e, refl, broken n e k i)
                ]
              ])
        ]

    wait_tasktrackers-Finished :
        (fuel n m running : ℕ)
        → polls.tasktrackers m ≡ ok running
        → n ≤ last
        → last < fuel + n
        → leb limit (polls.clock m - polls.clock 0) ≡ false
        → PassedBut m n
        → Finished (wait_tasktrackers fuel polls (polls.clock 0) limit number n running)
    unfolding wait_tasktrackers
    wait_tasktrackers-Finished zero n m running p h f early passed = absurd (omega arith)
    wait_tasktrackers-Finished (suc fuel) n m running p h f early passed =
        elim (Bool-cases (ltb running number)) [
          | inr c ↦ rw c (ok tt, refl, enough m running p (ground arith))
          | inl c ↦
              let all_passed = Passed-but m n running passed early p (ground arith) in
              rw c (elim (Bool-cases (leb limit (polls.clock n - polls.clock 0))) [
                | inl b ↦ rw b (raised timeout, refl, timed_out n (ground arith) all_passed)
                | inr b ↦
                    let before : (n < last) = before_last n b h in
                    rw b (elim (Result-cases (polls.tasktrackers n)) [
                      | inl (actual, k) ↦ rw k (
                          wait_tasktrackers-Finished fuel (suc n) n actual k before (omega arith) b
                            (λ j g l ne. all_passed j g (ground (arith, ne, l))))
                      | inr (e, k) ↦ elim (Bool-cases (is_io_error e)) [
                        | inl i ↦
                            rw (k, i)
                              (wait_tasktrackers-Finished fuel (suc n) m running p before
                                (omega arith) early
                                (λ j g l ne.
                                  Passed-next n all_passed (b, λ r x. absurd (cc (x, k))) j g l))
                        | inr i ↦ rw (k, i) (raised e, refl, refused n e k i)
                      ]
                    ])
              ])
        ]

    Finished-Answers :
        (fuel : ℕ) (r : Result (ℕ × ℕ))
        → last < fuel
        → wait_jobtracker fuel polls (polls.clock 0) limit 1 ≡ some r
        → Answers last r
        → Finished (wait_for_hadoop fuel polls number limit)
    unfolding wait_for_hadoop
    Finished-Answers fuel _ f e (answered n running k before early passed) =
        rw (e, wait_for_hadoop)
          (wait_tasktrackers-Finished fuel (suc n) n running k before (omega arith) early
            (λ j g l ne. passed j g (ground (arith, ne, l))))
    Finished-Answers fuel _ f e (late n l passed) =
        rw (e, wait_for_hadoop) (raised timeout, refl, timed_out n l passed)
    Finished-Answers fuel _ f e (broken n x k i) =
        rw (e, wait_for_hadoop) (raised x, refl, refused n x k i)

    -- Where the clock reaches the limit in some turn, the waiting ends within one turn more. It
    -- succeeds only if the jobtracker has reported enough tasktrackers, and raises TimeoutException
    -- only in the first turn in which the limit is reached, where no page of the turns before it
    -- reported enough; any other exception is one that reading its page raised and that
    -- is no IOError.
    pub wait_for_hadoop-Finished :
        (fuel : ℕ) → 1 ≤ last → last < fuel → Finished (wait_for_hadoop fuel polls number limit)
    wait_for_hadoop-Finished fuel h f =
        let (r, e, a) =
          wait_jobtracker-Answers fuel 1 h (omega arith) (λ k g l. absurd (omega arith)) in
        Finished-Answers fuel r f e a
