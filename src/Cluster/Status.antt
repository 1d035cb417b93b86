-- ===== src/Cluster/Status.antt =====
-- `print_status` of Ec2Cluster (hadoop/cloud/providers/ec2.py): the instances that it prints, each with
-- the role in front of it.
use ec2_wrappers.Prelude.{
  String, Option, List, [], ◌∷◌, ◌++◌, map, ok, return, ◌>>=◌, ◌≡◌, refl, arith,
}
use ec2_wrappers.Ec2.{Instance}
use ec2_wrappers.Cluster.{Compute, Action, instances_of, group_name_for_role, check_role_name}

module _ (C : Compute) (name : String) (state : Option String) where
  abbrev listed : String → String → Action C (List (String × Instance))
  listed role group c =
      (ok (map (λ i. (role, i)) (instances_of group state (C.get_all_instances c))), c)

  -- The loop over the roles.
  unfoldable pub print_roles : List String → Action C (List (String × Instance))
  print_roles [] = return []
  print_roles (role ∷ roles) = do
    group ← group_name_for_role C name role
    here ← listed role group
    rest ← print_roles roles
    return (here ++ rest)

  -- Without roles, all instances of the cluster.
  unfoldable pub print_status : List String → Action C (List (String × Instance))
  print_status [] = listed "" name
  print_status (role ∷ roles) = print_roles (role ∷ roles)

  print_roles-same : (roles : List String) (c : C.Cloud) → (print_roles roles c).1 ≡ c
  unfolding print_roles group_name_for_role check_role_name
  print_roles-same [] c = refl
  print_roles-same (role ∷ roles) c = ground (arith, print_roles-same roles c)

  -- Printing changes nothing.
  pub print_status-same : (roles : List String) (c : C.Cloud) → (print_status roles c).1 ≡ c
  unfolding print_status
  print_status-same [] c = refl
  print_status-same (role ∷ roles) c = print_roles-same (role ∷ roles) c
