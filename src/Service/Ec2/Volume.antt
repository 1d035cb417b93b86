-- ===== src/Service/Ec2/Volume.antt =====
-- How long `_wait_for_volume` (hadoop/cloud/providers/ec2.py) waits.
use mathlib.Core.Path.{subst}
use native.Mathlib.Decide.{dec_lt}
use ec2_wrappers.Prelude.{ℕ, zero, suc, ◌+◌, ◌≤◌, ◌<◌, true, false, none, some, List, ◌∷◌}
use ec2_wrappers.Prelude.{
  Result, ok, ◌≡◌, refl, ◌∙◌, arith, ltb, leb, string_eq, ◌==◌, if◌then◌else◌,
}
use ec2_wrappers.Storage.{Volume}
use ec2_wrappers.Service.Ec2.Shapes.{wait_for_volume}

-- An answer with a volume that is not available.
pub record IsPending (answer : Result (List Volume)) : Type 0 where
  pub volume : Volume
  pub others : List Volume
  pub has_volume : answer ≡ ok (volume ∷ others)
  pub busy : (volume.status == "available") ≡ false

module _ (poll : ℕ → Result (List Volume)) where
  passes :
      (fuel m : ℕ)
      → IsPending (poll m)
      → wait_for_volume (suc fuel) poll m ≡ wait_for_volume fuel poll (suc m)
  unfolding wait_for_volume
  passes fuel m p = ground (arith, p.has_volume, p.busy)

  -- The loop has no limit: while EC2 reports the volume and not as available it goes on, for any number
  -- of turns.
  pub wait_for_volume_endless :
      (fuel m : ℕ) → ((k : ℕ) → IsPending (poll k)) → wait_for_volume fuel poll m ≡ none
  unfolding wait_for_volume
  wait_for_volume_endless zero m p = refl
  wait_for_volume_endless (suc fuel) m p =
      passes fuel m (p m) ∙ wait_for_volume_endless fuel (suc m) p

  module _ (n : ℕ) (v : Volume) (vs : List Volume) (found : poll n ≡ ok (v ∷ vs))
      (free : (v.status == "available") ≡ true)
      (before : (k : ℕ) → k < n → IsPending (poll k)) where
    wait_from :
        (fuel m : ℕ)
        → m ≤ n
        → wait_for_volume fuel poll m ≡ (if ltb n (fuel + m) then some (ok tt) else none)
    unfolding wait_for_volume
    wait_from zero m h = ground arith
    wait_from (suc fuel) m h = elim (dec_lt m n) [
      | yes b ↦ ground (arith, passes fuel m (before m b), wait_from fuel (suc m))
      | no b ↦
          let same : (n ≡ m) = omega arith in
          let here : (poll m ≡ ok (v ∷ vs)) = subst (λ k. poll k ≡ ok (v ∷ vs)) same found in
          ground (arith, here, free)
    ]

    -- Where the volume is available for the first time in turn `n`, and reported until then, the loop
    -- ends well in that turn and not before it.
    pub wait_for_volume_lem :
        (fuel : ℕ)
        → 0 < n
        → wait_for_volume fuel poll 1 ≡ (if leb n fuel then some (ok tt) else none)
    wait_for_volume_lem fuel h = ground (arith, wait_from fuel 1)
