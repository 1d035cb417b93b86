-- ===== src/Accounts/Scripts/Active.antt =====
-- ec2_active.py changes nothing.
use ec2_wrappers.Prelude.{String, List, [], ◌∷◌, Result, Exn, ok, raised}
use ec2_wrappers.Prelude.{◌≡◌, arith, inl, inr, ◌⊎◌, Result-cases, name_error}
use ec2_wrappers.Ec2.{Instance, SpotRequest}
use ec2_wrappers.Accounts.{
  Services, World, User, make, init_access_keys, running_instances, running_spot_requests,
}
use ec2_wrappers.Accounts.Runner.Guard.{caller}
use ec2_wrappers.Accounts.Scripts.{
  ActiveOptions, ec2_active, active, running_time, show_instances, show_requests, cancel_requests,
  terminate_instances,
}

module _ (S : Services) (terminate : String → S.Cloud → Result (Unit {0}) × S.Cloud)
    (o : ActiveOptions) (w : World S) where
  -- EC2 reports neither a running instance nor an open spot request of a user.
  pub record IsIdle (u : User) : Type 0 where
    pub no_instances : (running_instances S u w).0 ≡ ok []
    pub no_requests : (running_spot_requests S u w).0 ≡ ok []

  running_instances-same : (u : User) → (running_instances S u w).1 ≡ w
  unfolding running_instances
  running_instances-same u = ground arith

  running_spot_requests-same : (u : User) → (running_spot_requests S u w).1 ≡ w
  unfolding running_spot_requests
  running_spot_requests-same u = ground arith

  module _ (u : User) where
    abbrev Outcome : Type 0
    Outcome =
        ((active S terminate o u w ≡ (ok tt, w)) × IsIdle u)
        ⊎ ((e : Exn) × (active S terminate o u w ≡ (raised e, w)))

    refused_instances :
        (e : Exn)
        → (running_instances S u w).0 ≡ raised e
        → active S terminate o u w ≡ (raised e, w)
    unfolding active
    refused_instances e h = ground (arith, running_instances-same u)

    module _ (instances : List Instance) (hi : (running_instances S u w).0 ≡ ok instances) where
      refused_requests :
          (e : Exn)
          → (running_spot_requests S u w).0 ≡ raised e
          → active S terminate o u w ≡ (raised e, w)
      unfolding active
      refused_requests e h = ground (arith, running_instances-same u, running_spot_requests-same u)

    shown_instances :
        (i : Instance) (is : List Instance) (requests : List SpotRequest)
        → (running_instances S u w).0 ≡ ok (i ∷ is)
        → (running_spot_requests S u w).0 ≡ ok requests
        → active S terminate o u w ≡ (raised (name_error "datetime"), w)
    unfolding active show_instances running_time
    shown_instances i is requests hi hr =
        ground (arith, running_instances-same u, running_spot_requests-same u)

    shown_requests :
        (r : SpotRequest) (rs : List SpotRequest)
        → (running_instances S u w).0 ≡ ok []
        → (running_spot_requests S u w).0 ≡ ok (r ∷ rs)
        → active S terminate o u w ≡ (raised (name_error "SPOT_FORMAT"), w)
    unfolding active show_instances show_requests
    shown_requests r rs hi hr =
        ground (arith, running_instances-same u, running_spot_requests-same u)

    nothing_shown :
        (running_instances S u w).0 ≡ ok []
        → (running_spot_requests S u w).0 ≡ ok []
        → active S terminate o u w ≡ (ok tt, w)
    unfolding active show_instances show_requests cancel_requests terminate_instances
    nothing_shown hi hr = ground (arith, running_instances-same u, running_spot_requests-same u)

    listed :
        (instances : List Instance) (requests : List SpotRequest)
        → (running_instances S u w).0 ≡ ok instances
        → (running_spot_requests S u w).0 ≡ ok requests
        → Outcome
    listed [] [] hi hr = inl (nothing_shown hi hr, record { no_instances = hi; no_requests = hr })
    listed [] (r ∷ rs) hi hr = inr (name_error "SPOT_FORMAT", shown_requests r rs hi hr)
    listed (i ∷ is) requests hi hr =
        inr (name_error "datetime", shown_instances i is requests hi hr)

    active-same : Outcome
    active-same = elim (Result-cases (running_instances S u w).0) [
      | inr (e, h) ↦ inr (e, refused_instances e h)
      | inl (instances, hi) ↦ elim (Result-cases (running_spot_requests S u w).0) [
        | inr (e, h) ↦ inr (e, refused_requests instances hi e h)
        | inl (requests, hr) ↦ listed instances requests hi hr
      ]
    ]

  -- Whatever the options, nothing is terminated or cancelled: the world is as it was. The script runs
  -- to its end only where the caller has nothing to show, and otherwise raises.
  pub ec2_active-same :
      (name : String)
      → ((ec2_active S terminate name (ok o) w ≡ (ok tt, w)) × IsIdle (caller S name w))
        ⊎ ((e : Exn) × (ec2_active S terminate name (ok o) w ≡ (raised e, w)))
  unfolding ec2_active make init_access_keys
  ec2_active-same name = active-same (caller S name w)
