-- ===== src/Cluster/Waiting.antt =====
-- `wait_for_instances` (hadoop/cloud/providers/ec2.py) ends.
use ec2_wrappers.Prelude.{ℕ, zero, suc, ◌+◌, ◌-◌, ◌≤◌, ◌<◌, true, false, Option, some, List, Result}
use ec2_wrappers.Prelude.{ok, raised, Exn, timeout, ◌≡◌, refl, arith, leb, inl, inr}
use ec2_wrappers.Prelude.{Bool-cases, Result-cases}
use mathlib.Core.Path.{subst}
use native.Mathlib.Decide.{dec_lt}
use ec2_wrappers.Ec2.{Reservation}
use ec2_wrappers.Cluster.{all_started, is_ec2_error, wait_loop, wait_for_instances}

module _ (clock : ℕ → ℕ) (poll : ℕ → Result (List Reservation)) (limit : ℕ) where
  -- How the waiting ends: with all instances running before the limit, with the limit reached, or with
  -- an exception of EC2 that is no EC2ResponseError.
  pub data Ends : Result (Unit {0}) → Type 0 where
    started :
        (n : ℕ) (reservations : List Reservation)
        → poll n ≡ ok reservations
        → all_started reservations ≡ true
        → clock n - clock 0 < limit
        → Ends (ok tt)
    timed_out : (n : ℕ) → limit ≤ clock n - clock 0 → Ends (raised timeout)
    refused : (n : ℕ) (e : Exn) → poll n ≡ raised e → is_ec2_error e ≡ false → Ends (raised e)

  -- The result of a run that had enough fuel.
  abbrev pub Finished : Option (Result (Unit {0})) → Type 0
  Finished o = (r : Result (Unit {0})) × (o ≡ some r) × Ends r

  wait_loop-Finished :
      (fuel m : ℕ)
      → ((k : ℕ) → clock 0 + k ≤ clock (suc k))
      → m ≤ limit
      → limit < fuel + m
      → Finished (wait_loop fuel clock poll (clock 0) limit (suc m))
  unfolding wait_loop
  wait_loop-Finished zero m tick hm hf = absurd (omega arith)
  wait_loop-Finished (suc fuel) m tick hm hf =
      elim (Bool-cases (leb limit (clock (suc m) - clock 0))) [
        | inl b ↦ rw b (raised timeout, refl, timed_out (suc m) (ground arith))
        | inr b ↦
            let on : (m < limit) = ground (arith, tick m) in
            let rest = wait_loop-Finished fuel (suc m) tick on (omega arith) in
            rw b (elim (Result-cases (poll (suc m))) [
              | inl (rs, h) ↦ elim (Bool-cases (all_started rs)) [
                | inl s ↦ rw (h, s) (ok tt, refl, started (suc m) rs h s (ground arith))
                | inr s ↦ rw (h, s) rest
              ]
              | inr (e, h) ↦ elim (Bool-cases (is_ec2_error e)) [
                | inl s ↦ rw (h, s) rest
                | inr s ↦ rw (h, s) (raised e, refl, refused (suc m) e h s)
              ]
            ])
      ]

  -- Where every turn takes a second at least, `wait_for_instances` ends within one turn more than the
  -- limit has seconds. It succeeds only if EC2 has reported all instances as running before the limit,
  -- and raises TimeoutException only once the limit is reached; any other exception is one that EC2
  -- answered with and that is no EC2ResponseError.
  pub wait_for_instances-Finished :
      (fuel : ℕ)
      → ((k : ℕ) → clock 0 + k ≤ clock (suc k))
      → limit < fuel
      → Finished (wait_for_instances fuel clock poll limit)
  unfolding wait_for_instances
  wait_for_instances-Finished fuel tick h =
      wait_loop-Finished fuel 0 tick (omega arith) (omega arith)

  -- An answer that keeps the loop waiting: instances, or an EC2ResponseError.
  abbrev pub Tolerated : Result (List Reservation) → Type 0
  Tolerated (ok reservations) = Unit {0}
  Tolerated (raised e) = is_ec2_error e ≡ true

  module _ (n : ℕ) (reservations : List Reservation)
      (monotone : (a b : ℕ) → a ≤ b → clock a ≤ clock b)
      (answers : (k : ℕ) → k < n → Tolerated (poll k)) (last : poll n ≡ ok reservations)
      (running : all_started reservations ≡ true) (early : clock n < clock 0 + limit) where
    in_time : (m : ℕ) → m ≤ n → leb limit (clock m - clock 0) ≡ false
    in_time m h = ground (arith, monotone m n, monotone 0 n)

    succeeds_last : (fuel : ℕ) → wait_loop (suc fuel) clock poll (clock 0) limit n ≡ some (ok tt)
    unfolding wait_loop
    succeeds_last fuel = rw (in_time n (omega arith), last, running) refl

    succeeds_before :
        (fuel m : ℕ)
        → m < n
        → wait_loop fuel clock poll (clock 0) limit (suc m) ≡ some (ok tt)
        → wait_loop (suc fuel) clock poll (clock 0) limit m ≡ some (ok tt)
    unfolding wait_loop
    succeeds_before fuel m h rest = elim (Result-cases (poll m)) [
      | inl (rs, e) ↦ elim (Bool-cases (all_started rs)) [
        | inl s ↦ rw (in_time m (omega arith), e, s) refl
        | inr s ↦ rw (in_time m (omega arith), e, s) rest
      ]
      | inr (x, e) ↦
          let kept : (is_ec2_error x ≡ true) = subst Tolerated e (answers m h) in
          rw (in_time m (omega arith), e, kept) rest
    ]

    wait_loop_succeeds :
        (fuel m : ℕ)
        → m ≤ n
        → n < fuel + m
        → wait_loop fuel clock poll (clock 0) limit m ≡ some (ok tt)
    wait_loop_succeeds zero m le enough = absurd (omega arith)
    wait_loop_succeeds (suc fuel) m le enough = elim (dec_lt m n) [
      | yes h ↦
          succeeds_before fuel m h (wait_loop_succeeds fuel (suc m) (omega arith) (omega arith))
      | no h ↦
          let same : (n ≡ m) = omega arith in
          subst (λ k. wait_loop (suc fuel) clock poll (clock 0) limit k ≡ some (ok tt)) same
            (succeeds_last fuel)
    ]

    -- Once EC2 reports all instances as running before the limit, with a clock that never goes back,
    -- and has answered with instances or an EC2ResponseError until then: `wait_for_instances` returns
    -- without an exception, within as many turns.
    pub wait_for_instances_succeeds :
        (fuel : ℕ) → 0 < n → n ≤ fuel → wait_for_instances fuel clock poll limit ≡ some (ok tt)
    unfolding wait_for_instances
    wait_for_instances_succeeds fuel h enough =
        wait_loop_succeeds fuel 1 (omega arith) (omega arith)
