-- ===== src/Accounts/Growth.antt =====
-- Which instances EC2 reports after `run_instances` (subaccounts.py), where EC2 launches what it is
-- asked for.
use ec2_wrappers.Prelude.{ℕ, ◌+◌, ◌*◌, ◌≡◌, refl, ap, ◌∙◌, Bool, true, false, String}
use ec2_wrappers.Prelude.{◌<>◌, none, some, List, [], ◌∷◌, ◌++◌, Result, ok, raised, arith}
use ec2_wrappers.Prelude.{All, length, Exn, Bool-cases, Option-cases, Result-cases}
use ec2_wrappers.Prelude.{inl, inr, ◌⊎◌}
use ec2_wrappers.Prelude.Text.{starts_with}
use ec2_wrappers.Ec2.{Instance, Reservation, all_of}
use ec2_wrappers.Accounts.{
  Services, World, User, Request, Launch, Launched, instance_cost, cost_proposal, making_request,
  get, launch, launch_spot, launch_demand, run_instances,
}
use ec2_wrappers.Accounts.Totals.{total, IsFresh, total-fresh}
use ec2_wrappers.Accounts.Spending.{IsPermitted, Refused, cost_instances-same}

-- The instances that EC2 reports for a user.
abbrev pub reported : (S : Services) → String → S.Cloud → List Instance
reported S user c = all_of (S.get_all_instances user c)

-- RunInstances and RequestSpotInstances, as documented: with equal minimum and maximum count a run
-- launches exactly that many instances of the type, under the key, or fails and launches none; the
-- filter `<user>*` then reports them too. A spot request launches nothing by itself.
pub record IsLawful (S : Services) : Type 0 where
  pub runs :
      (l : Launch) (c : S.Cloud) (res : Reservation) (user : String)
      → (S.run_instances l c).0 ≡ ok res
      → starts_with l.key_name user ≡ true
      → (reported S user (S.run_instances l c).1 ≡ reported S user c ++ res.instances)
        × All (IsFresh l.instance_type l.key_name) res.instances
        × (length res.instances ≡ l.count)
  pub fails :
      (l : Launch) (c : S.Cloud) (e : Exn) (user : String)
      → (S.run_instances l c).0 ≡ raised e
      → reported S user (S.run_instances l c).1 ≡ reported S user c
  pub spots :
      (price : ℕ) (l : Launch) (c : S.Cloud) (user : String)
      → reported S user (S.request_spot_instances price l c).1 ≡ reported S user c

module _ (S : Services) (L : IsLawful S) where
  -- The instances that are reported after a call: those from before, or those and new ones.
  pub data Grows (user : String) (type key : String) (count : ℕ) (before after : List Instance)
      : Type 0 where
    same : after ≡ before → Grows user type key count before after
    more :
        (new : List Instance)
        → after ≡ before ++ new
        → All (IsFresh type key) new
        → length new ≡ count
        → Grows user type key count before after

  launch_demand-Grows :
      (info : Request) (type : String) (count : ℕ) (key user : String) (w : World S)
      → starts_with key user ≡ true
      → Grows user type key count
          (reported S user w.cloud)
          (reported S user (launch_demand S info type count key w).1.cloud)
  unfolding launch_demand
  launch_demand-Grows info type count key user w h = elim (Option-cases info.image_id) [
    | inl e ↦ same (ground arith)
    | inr (image, ei) ↦ elim (Option-cases info.security_groups) [
      | inl e ↦ same (ground arith)
      | inr (groups, eg) ↦ elim (Option-cases info.user_data) [
        | inl e ↦ same (ground arith)
        | inr (text, eu) ↦
            let l : Launch = record {
              image_id = image;
              count = count;
              key_name = key;
              security_groups = groups;
              user_data = text;
              instance_type = type;
              placement = get info.availability_zone;
            } in
            elim (Result-cases (S.run_instances l w.cloud).0) [
              | inl (res, er) ↦
                  let (adds, fresh, number) = L.runs l w.cloud res user er h in
                  more res.instances (ground arith) fresh number
              | inr (x, er) ↦ same (ground (arith, L.fails l w.cloud x user er))
            ]
      ]
    ]
  ]

  launch_spot-same :
      (info : Request) (type : String) (count : ℕ) (key user : String) (w : World S)
      → reported S user (launch_spot S info type count key w).1.cloud ≡ reported S user w.cloud
  unfolding launch_spot
  launch_spot-same info type count key user w = elim (Result-cases (instance_cost type)) [
    | inr (x, e) ↦ ground arith
    | inl (cost, ec) ↦ elim (Option-cases info.image_id) [
      | inl e ↦ ground arith
      | inr (image, ei) ↦ elim (Option-cases info.security_groups) [
        | inl e ↦ ground arith
        | inr (groups, eg) ↦
            let l : Launch = record {
              image_id = image;
              count = count;
              key_name = key;
              security_groups = groups;
              user_data = get info.user_data;
              instance_type = type;
              placement = get info.availability_zone;
            } in
            elim (Result-cases (S.request_spot_instances (cost * 86) l w.cloud).0) [
              | inl (res, er) ↦ ground (arith, L.spots (cost * 86) l w.cloud user)
              | inr (x, er) ↦ ground (arith, L.spots (cost * 86) l w.cloud user)
            ]
      ]
    ]
  ]

  launch-Grows :
      (use_spot : Bool) (info : Request) (type : String) (count : ℕ) (key user : String)
      (w : World S)
      → starts_with key user ≡ true
      → Grows user type key count
          (reported S user w.cloud)
          (reported S user (launch S use_spot info type count key w).1.cloud)
  unfolding launch
  launch-Grows true info type count key user w h =
      same (launch_spot-same info type count key user w)
  launch-Grows false info type count key user w h = launch_demand-Grows info type count key user w h

  -- Past its tests `run_instances` writes to the log and launches.
  run_instances_permitted :
      (u : User) (info : Request) (w : World S) (p : IsPermitted S u info w) (spot : Bool)
      → info.use_spot ≡ some spot
      → run_instances S u info w
        ≡ launch S spot info p.instance_type p.count p.key_name (record w {
          log = w.log ++ (making_request (record info { user_data = none }) u.user_name ∷ []);
        })
  unfolding run_instances cost_proposal
  run_instances_permitted u info w p spot e = ground (arith, cost_instances-same S u w)

  pub run_instances-Grows :
      (u : User) (info : Request) (w : World S) (p : IsPermitted S u info w)
      → Grows u.user_name p.instance_type p.key_name p.count
          (reported S u.user_name w.cloud)
          (reported S u.user_name (run_instances S u info w).1.cloud)
  unfolding run_instances cost_proposal
  run_instances-Grows u info w p = elim (Option-cases info.use_spot) [
    | inl e ↦ same (ground (arith, cost_instances-same S u w))
    | inr (spot, e) ↦
        rw (run_instances_permitted u info w p spot e)
          (launch-Grows spot info p.instance_type p.count p.key_name u.user_name _ p.own_key)
  ]

  pub total-Grows :
      (user type key : String) (count cost old : ℕ) (before after : List Instance)
      → Grows user type key count before after
      → instance_cost type ≡ ok cost
      → total user before ≡ ok old
      → (now : ℕ) × (total user after ≡ ok now)
        × ((now ≡ old) ⊎ ((starts_with key (user <> "-") ≡ true) × (now ≡ old + cost * count)))
  total-Grows user type key count cost old before after (same e) hc h = (old, rw e h, inl refl)
  total-Grows user type key count cost old before after (more new e fresh number) hc h =
      let t = total-fresh user type key cost old before new fresh hc h in
      elim (Bool-cases (starts_with key (user <> "-"))) [
        | inl b ↦ (old + cost * count, ground arith, inr (b, refl))
        | inr b ↦ (old, rw e (rw b at t ∙ ap ok (omega arith)), inl refl)
      ]

  pub Refused-cloud :
      (w : World S) (r : Result Launched × World S) → Refused S w r → r.1.cloud ≡ w.cloud
  Refused-cloud w (ok l, w') h = absurd h
  Refused-cloud w (raised e, w') h = h
