-- ===== src/Cluster.antt =====
-- The class Ec2Cluster of hadoop/cloud/providers/ec2.py: a cluster is a security group of its name,
-- with a group for each role. EC2 is a parameter.
pub mod Roles
pub mod Groups
pub mod Members
pub mod Waiting
pub mod Status
mod Names
pub mod Tests
unfoldable pub use Names.*
use ec2_wrappers.Prelude.{
  ℕ, zero, suc, ◌+◌, ◌-◌, Bool, true, false, String, ◌<>◌, Option, none, some,
}
use ec2_wrappers.Prelude.{List, [], ◌∷◌, ◌++◌, map, select, contains, is_empty, not, all, any, leb}
use ec2_wrappers.Prelude.{
  Result, ok, raised, Exec, return, raise, raise_if, lift, for_each, when, ◌>>=◌,
}
use ec2_wrappers.Prelude.{
  ◌&&◌, ◌>>◌, Exn, role_syntax, timeout, ec2_error, index_error, string_eq, ◌==◌,
}
use ec2_wrappers.Prelude.{if◌then◌else◌}
use ec2_wrappers.Ec2.{Instance, Reservation}

-- The arguments of `run_instances`.
pub record Launch : Type 0 where
  pub image_id : String
  pub count : ℕ
  pub key_name : Option String
  pub security_groups : List String
  pub user_data : String
  pub instance_type : String
  pub placement : Option String

-- EC2 as a cluster calls it.
pub record Compute : Type 1 where
  pub Cloud : Type 0
  pub get_all_security_groups : Cloud → List String
  pub create_security_group : String → String → Cloud → Result (Unit {0}) × Cloud
  -- a group for a group
  pub authorize_group : String → String → Cloud → Result (Unit {0}) × Cloud
  -- a range of ports for a network, by TCP
  pub authorize_ports : String → ℕ → ℕ → String → Cloud → Result (Unit {0}) × Cloud
  pub revoke_ports : String → ℕ → ℕ → String → Cloud → Result (Unit {0}) × Cloud
  pub get_all_instances : Cloud → List Reservation
  pub run_instances : Launch → Cloud → Result Reservation × Cloud
  pub terminate_instances : List String → Cloud → Result (Unit {0}) × Cloud
  pub delete_security_group : String → Cloud → Result (Unit {0}) × Cloud

-- The instances of a reservation once for each of its groups that is the one asked for.
unfoldable pub members : String → Option String → List String → List Instance → List Instance
members group_name state [] is = []
members group_name state (g ∷ groups) is =
    let rest = members group_name state groups is in
    if g == group_name then select (has_state state) is ++ rest else rest

unfoldable pub instances_of : String → Option String → List Reservation → List Instance
instances_of group_name state [] = []
instances_of group_name state (res ∷ rest) =
    members group_name state res.groups res.instances ++ instances_of group_name state rest

-- The names of the clusters among the groups of a reservation.
unfoldable pub clusters_of : String → List String → List String
clusters_of role [] = []
clusters_of role (g ∷ groups) =
    let rest = clusters_of role groups in
    if is_role_group role g then cluster_of_group role g ∷ rest else rest

-- `res.instances[0]`, and the groups that end in the role where its state is the one asked for.
unfoldable pub get_clusters_with_role : String → String → List Reservation → Result (List String)
get_clusters_with_role role state [] = ok []
get_clusters_with_role role state (res ∷ rest) = elim res.instances [
  | [] ↦ raised index_error
  | i ∷ is ↦ elim (get_clusters_with_role role state rest) [
    | raised e ↦ raised e
    | ok more ↦ ok (if i.state == state then clusters_of role res.groups ++ more else more)
  ]
]

unfoldable pub all_started : List Reservation → Bool
all_started [] = true
all_started (res ∷ rest) = all (λ i. i.state == "running") res.instances && all_started rest

-- `except EC2ResponseError`
unfoldable pub is_ec2_error : Exn → Bool
is_ec2_error ec2_error = true
is_ec2_error other = false

-- The loop of `wait_for_instances`, on fuel. It starts at `clock 0`; in its n-th turn, from 1, the
-- clock shows `clock n` and EC2 answers with `poll n`. `none` means that the fuel ran out.
unfoldable pub wait_loop :
    ℕ → (ℕ → ℕ) → (ℕ → Result (List Reservation)) → ℕ → ℕ → ℕ → Option (Result (Unit {0}))
wait_loop zero clock poll start limit n = none
wait_loop (suc fuel) clock poll start limit n =
    let again = wait_loop fuel clock poll start limit (suc n) in
    if leb limit (clock n - start) then some (raised timeout) else elim (poll n) [
      | ok reservations ↦ if all_started reservations then some (ok tt) else again
      | raised e ↦ if is_ec2_error e then again else some (raised e)
    ]

unfoldable pub wait_for_instances :
    ℕ → (ℕ → ℕ) → (ℕ → Result (List Reservation)) → ℕ → Option (Result (Unit {0}))
wait_for_instances fuel clock poll limit = wait_loop fuel clock poll (clock 0) limit 1

module _ (C : Compute) where
  abbrev pub Action : Type 0 → Type 0
  Action A = Exec C.Cloud A

  unfoldable pub check_role_name : String → Action (Unit {0})
  check_role_name role = raise_if (not (is_role_name role)) (role_syntax role)

  unfoldable pub group_name_for_role : String → String → Action String
  group_name_for_role name role = do check_role_name role; return (role_group name role)

  -- The loop of `_get_group_names`.
  unfoldable pub role_group_names : String → List String → Action (List String)
  role_group_names name [] = return []
  role_group_names name (role ∷ roles) = do
    group ← group_name_for_role name role
    rest ← role_group_names name roles
    return (group ∷ rest)

  unfoldable pub get_group_names : String → List String → Action (List String)
  get_group_names name roles = do rest ← role_group_names name roles; return (name ∷ rest)

  -- The group of the cluster, with SSH from anywhere.
  unfoldable pub create_cluster_group : String → Action (Unit {0})
  create_cluster_group name = do
    C.create_security_group name ("Cluster (" <> (name <> ")"))
    C.authorize_group name name
    C.authorize_ports name 22 22 "0.0.0.0/0"

  unfoldable pub create_groups : String → String → Action (Unit {0})
  create_groups name role = do
    check_role_name role
    names ← (λ c. (ok (C.get_all_security_groups c), c))
    when (not (contains names name)) (create_cluster_group name)
    group ← group_name_for_role name role
    when (not (contains names group))
        (C.create_security_group group ("Role " <> (role <> (" (" <> (name <> ")")))))

  unfoldable pub authorize_role : String → String → ℕ → ℕ → String → Action (Unit {0})
  authorize_role name role from_port to_port cidr_ip = do
    check_role_name role
    group ← group_name_for_role name role
    C.revoke_ports group from_port to_port cidr_ip
    C.authorize_ports group from_port to_port cidr_ip

  unfoldable pub get_instances_in_role : String → String → Option String → Action (List Instance)
  get_instances_in_role name role state = do
    check_role_name role
    group ← group_name_for_role name role
    (λ c. (ok (instances_of group state (C.get_all_instances c)), c))

  -- `launch_instances` of Ec2Cluster, with what reading the user data gives and
  -- the options that it takes from `kwargs`.
  unfoldable pub launch_instances :
      String
      → List String
      → ℕ
      → String
      → String
      → Result String
      → List String
      → Option String
      → Option String
      → Action (List String)
  launch_instances name roles number image_id size_id user_data extra key_name placement = do
    for_each roles (λ role. do check_role_name role; create_groups name role)
    content ← lift user_data
    groups ← get_group_names name roles
    reservation ← C.run_instances (record {
      image_id = image_id;
      count = number;
      key_name = key_name;
      security_groups = groups ++ extra;
      user_data = content;
      instance_type = size_id;
      placement = placement;
    })
    return (map (λ i. i.id) reservation.instances)

  unfoldable pub terminate : String → Action (Unit {0})
  terminate name = do
    instances ← (λ c. (ok (instances_of name (some "running") (C.get_all_instances c)), c))
    when (not (is_empty instances)) (C.terminate_instances (map (λ i. i.id) instances))

  -- `delete`, for the names of the groups of the cluster.
  unfoldable pub delete_groups : String → Action (Unit {0})
  delete_groups name = do
    names ← (λ c. (ok (C.get_all_security_groups c), c))
    for_each (groups_for_cluster name names) C.delete_security_group
