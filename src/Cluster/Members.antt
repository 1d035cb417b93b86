-- ===== src/Cluster/Members.antt =====
-- The instances that a cluster launches are found in their roles (hadoop/cloud/providers/ec2.py).
use mathlib.Core.List.{append-nil, append_assoc}
use ec2_wrappers.Prelude.{ℕ, Bool, true, String, Option, none, List, [], ◌∷◌, ◌++◌, map}
use ec2_wrappers.Prelude.{Result, ok, ◌≡◌, refl, arith, sym, ap, ◌∙◌, contains, All, select}
use ec2_wrappers.Prelude.{contains-append, inl, inr, Bool-cases, Result-cases, string_eq, ◌==◌}
use ec2_wrappers.Prelude.{◌>>◌, ==_of_eq, eq_of_==, for_each}
use ec2_wrappers.Ec2.{Instance, Reservation}
use ec2_wrappers.Cluster.{
  Compute, Launch, is_role_name, role_group, check_role_name, group_name_for_role, create_groups,
  role_group_names, get_group_names, has_state, members, instances_of, launch_instances,
  get_instances_in_role,
}

-- RunInstances adds a reservation with the security groups that were asked for.
pub record IsRunning (C : Compute) : Type 0 where
  pub runs :
      (l : Launch) (c : C.Cloud) (res : Reservation)
      → (C.run_instances l c).0 ≡ ok res
      → (res.groups ≡ l.security_groups)
        × (C.get_all_instances (C.run_instances l c).1 ≡ C.get_all_instances c ++ (res ∷ []))

abbrev pub ids : List Instance → List String
ids is = map (λ i. i.id) is

pub ids-append : (xs ys : List Instance) → ids (xs ++ ys) ≡ ids xs ++ ids ys
ids-append [] ys = refl
ids-append (x ∷ xs) ys = ap (λ zs. x.id ∷ zs) (ids-append xs ys)

instances_of-append :
    (group : String) (state : Option String) (xs : List Reservation) (res : Reservation)
    → instances_of group state (xs ++ (res ∷ []))
      ≡ instances_of group state xs ++ members group state res.groups res.instances
unfolding instances_of
instances_of-append group state [] res = append-nil _
instances_of-append group state (x ∷ xs) res =
    ap (λ is. members group state x.groups x.instances ++ is)
      (instances_of-append group state xs res)
    ∙ sym (append_assoc (members group state x.groups x.instances) (instances_of group state xs) _)

pub select-none : (is : List Instance) → select (has_state none) is ≡ is
unfolding has_state
select-none [] = refl
select-none (i ∷ is) = ap (λ js. i ∷ js) (select-none is)

contains-members :
    (group id : String) (groups : List String) (is : List Instance)
    → contains groups group ≡ true
    → contains (ids is) id ≡ true
    → contains (ids (members group none groups is)) id ≡ true
unfolding members
contains-members group id [] is h k = absurd (cc h)
contains-members group id (g ∷ groups) is h k = elim (Bool-cases (g == group)) [
  | inl b ↦ rw b (
      rw (select-none is) (
        rw (ids-append is (members group none groups is))
          (contains-append (ids is) (ids (members group none groups is)) id ∙ rw k refl)))
  | inr b ↦ rw b (contains-members group id groups is (ground arith) k)
]

contains-map :
    (name role : String) (roles : List String)
    → contains roles role ≡ true
    → contains (map (role_group name) roles) (role_group name role) ≡ true
contains-map name role [] h = absurd (cc h)
contains-map name role (r ∷ roles) h = elim (Bool-cases (role == r)) [
  | inl b ↦ rw (==_of_eq _ _ (ap (role_group name) (eq_of_== role r b))) refl
  | inr b ↦ ground (arith, contains-map name role roles)
]

module _ (C : Compute) where
  role_group_names_lem :
      (name : String) (roles : List String) (c : C.Cloud)
      → All (λ r. is_role_name r ≡ true) roles
      → role_group_names C name roles c ≡ (ok (map (role_group name) roles), c)
  unfolding role_group_names group_name_for_role check_role_name
  role_group_names_lem name [] c v = refl
  role_group_names_lem name (r ∷ roles) c (v, vs) =
      ground (arith, v, role_group_names_lem name roles c vs)

  get_group_names_lem :
      (name : String) (roles : List String) (c : C.Cloud)
      → All (λ r. is_role_name r ≡ true) roles
      → get_group_names C name roles c ≡ (ok (name ∷ map (role_group name) roles), c)
  unfolding get_group_names
  get_group_names_lem name roles c v = ground (arith, role_group_names_lem name roles c v)

  -- A launch that succeeded: EC2 was asked, in some state, for instances with the groups of the
  -- cluster and its roles, and the ids are those of its answer.
  record Launches (name : String) (roles extra : List String) (launched : List String)
      (after : C.Cloud) : Type 0 where
    request : Launch
    before : C.Cloud
    res : Reservation
    answers : (C.run_instances request before).0 ≡ ok res
    is_after : (C.run_instances request before).1 ≡ after
    has_groups : request.security_groups ≡ (name ∷ map (role_group name) roles) ++ extra
    has_ids : ids res.instances ≡ launched

  launch_instances-Launches :
      (name : String) (roles : List String) (number : ℕ) (image_id size_id : String)
      (user_data : Result String) (extra : List String) (key_name placement : Option String)
      (c : C.Cloud) (launched : List String)
      → All (λ r. is_role_name r ≡ true) roles
      → (launch_instances C name roles number image_id size_id user_data extra key_name placement
          c).0
        ≡ ok launched
      → Launches name roles extra launched
          (launch_instances C name roles number image_id size_id user_data extra key_name placement
            c).1
  unfolding launch_instances
  launch_instances-Launches name roles number image_id size_id user_data extra key_name placement c
        launched v h =
      let step = for_each roles (λ role. check_role_name C role >> create_groups C name role) in
      elim (Result-cases (step c).0) [
        | inr (e, k) ↦ absurd (ground arith)
        | inl (tt, k) ↦ elim (Result-cases user_data) [
          | inr (e, d) ↦ absurd (ground arith)
          | inl (text, d) ↦
              let c1 = (step c).1 in
              let request : Launch = record {
                image_id = image_id;
                count = number;
                key_name = key_name;
                security_groups = (name ∷ map (role_group name) roles) ++ extra;
                user_data = text;
                instance_type = size_id;
                placement = placement;
              } in
              let names = get_group_names_lem name roles c1 v in
              elim (Result-cases (C.run_instances request c1).0) [
                | inr (e, r) ↦ absurd (ground (arith, names))
                | inl (res, r) ↦ record {
                  request = request;
                  before = c1;
                  res = res;
                  answers = r;
                  is_after = ground (arith, names);
                  has_groups = refl;
                  has_ids = ground (arith, names);
                }
              ]
        ]
      ]

  -- What `get_instances_in_role` gives in a state of the cloud.
  pub get_instances_in_role_lem :
      (name role : String) (state : Option String) (c : C.Cloud)
      → is_role_name role ≡ true
      → get_instances_in_role C name role state c
        ≡ (ok (instances_of (role_group name role) state (C.get_all_instances c)), c)
  unfolding get_instances_in_role group_name_for_role check_role_name
  get_instances_in_role_lem name role state c v = ground arith

  pub All-contains :
      (P : String → Bool) (role : String) (roles : List String)
      → All (λ r. P r ≡ true) roles
      → contains roles role ≡ true
      → P role ≡ true
  All-contains P role [] v h = absurd (cc h)
  All-contains P role (r ∷ roles) (v, vs) h = elim (Bool-cases (role == r)) [
    | inl b ↦ ap P (eq_of_== role r b) ∙ v
    | inr b ↦ All-contains P role roles vs (ground arith)
  ]

  Launches-member :
      (name role id : String) (roles extra launched : List String) (after : C.Cloud)
      → IsRunning C
      → Launches name roles extra launched after
      → contains roles role ≡ true
      → contains launched id ≡ true
      → contains (ids (instances_of (role_group name role) none (C.get_all_instances after))) id
        ≡ true
  Launches-member name role id roles extra launched after law l r h =
      let group = role_group name role in
      let (groups, more) = law.runs l.request l.before l.res l.answers in
      let old = instances_of group none (C.get_all_instances l.before) in
      let new = members group none l.res.groups l.res.instances in
      let here : contains l.res.groups group ≡ true =
        ap (λ gs. contains gs group) (groups ∙ l.has_groups)
        ∙ contains-append (name ∷ map (role_group name) roles) extra group
        ∙ rw (contains-map name role roles r) (ground arith) in
      let found : contains (ids new) id ≡ true =
        contains-members group id l.res.groups l.res.instances here
          (ap (λ is. contains is id) l.has_ids ∙ h) in
      ap (λ c. contains (ids (instances_of group none (C.get_all_instances c))) id) (sym l.is_after)
      ∙ ap (λ rs. contains (ids (instances_of group none rs)) id) more
      ∙ ap (λ is. contains (ids is) id)
          (instances_of-append group none (C.get_all_instances l.before) l.res)
      ∙ ap (λ is. contains is id) (ids-append old new)
      ∙ contains-append (ids old) (ids new) id
      ∙ rw found (ground arith)

  -- Every instance that `launch_instances` returns is found afterwards by `get_instances_in_role`, in
  -- each of the roles that it was launched for.
  pub launch_instances-member :
      (name : String) (roles : List String) (number : ℕ) (image_id size_id : String)
      (user_data : Result String) (extra : List String) (key_name placement : Option String)
      (c : C.Cloud) (launched : List String) (role id : String)
      → IsRunning C
      → All (λ r. is_role_name r ≡ true) roles
      → (launch_instances C name roles number image_id size_id user_data extra key_name placement
          c).0
        ≡ ok launched
      → contains roles role ≡ true
      → contains launched id ≡ true
      → let after =
          (launch_instances C name roles number image_id size_id user_data extra key_name placement
            c).1 in
        (is : List Instance) × ((get_instances_in_role C name role none after).0 ≡ ok is)
        × (contains (ids is) id ≡ true)
  launch_instances-member name roles number image_id size_id user_data extra key_name placement c
        launched role id law v h r k =
      let launches =
        launch_instances-Launches name roles number image_id size_id user_data extra key_name
          placement c launched v h in
      (
        _,
        ap (λ p. p.0)
            (get_instances_in_role_lem name role none _ (All-contains is_role_name role roles v r)),
        Launches-member name role id roles extra launched _ law launches r k,
      )
