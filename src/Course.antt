-- ===== src/Course.antt =====
-- CS61CEc2Cluster of cs61cec2.py: a cluster whose instances are launched by the program with the
-- rights of the course (ec2_runner.py, here a parameter), and everything else as Ec2Cluster does.
pub mod Limited
pub mod Listing
mod Tests
use ec2_wrappers.Prelude.{
  ℕ, Bool, true, false, String, ◌<>◌, Option, none, some, List, [], ◌∷◌, ◌++◌, map,
}
use ec2_wrappers.Prelude.{
  Result, ok, raised, Exec, return, raise, lift, for_each, when, ◌>>=◌, ◌>>◌,
}
use ec2_wrappers.Prelude.{
  name_error, index_error, attribute_error, contains, is_empty, not, string_eq, ◌==◌,
}
use ec2_wrappers.Prelude.{select, if◌then◌else◌}
use ec2_wrappers.Prelude.Text.{starts_with}
use ec2_wrappers.Ec2.{Instance, Reservation, SpotRequest}
use ec2_wrappers.Accounts.{Request, number}
use ec2_wrappers.Accounts.Runner.{Submission}
use ec2_wrappers.Cluster.{
  Compute, Action, check_role_name, create_groups, get_group_names, instances_of, clusters_of,
}

-- The name of the user: FAKE_USERNAME, or that of the user id.
unfoldable pub username_of : Option String → String → String
username_of none pw_name = pw_name
username_of (some fake) pw_name = fake

-- The static method `get_clusters_with_role`.
unfoldable pub get_clusters_with_role :
    String → String → String → List Reservation → Result (List String)
get_clusters_with_role username role state [] = ok []
get_clusters_with_role username role state (res ∷ rest) =
    let following = get_clusters_with_role username role state rest in
    elim res.instances [
      | [] ↦ raised index_error
      | i ∷ is ↦ elim i.key_name [
        | none ↦ raised attribute_error
        | some key ↦ elim following [
          | raised e ↦ raised e
          | ok more ↦ ok (
              if starts_with key username
              then (if i.state == state then clusters_of role res.groups ++ more else more)
              else more)
        ]
      ]
    ]

-- The arguments of `launch_instances`, with what reading the user data gives.
pub record Launch : Type 0 where
  pub roles : List String
  pub number : ℕ
  pub image_id : String
  pub size_id : String
  pub user_data : Result String
  pub security_groups : List String
  pub key_name : Option String
  pub placement : Option String
  pub placement_group : Option String
  pub use_spot : Bool

-- The spot requests of the cluster among all.
unfoldable pub get_spot_requests : String → List SpotRequest → List SpotRequest
get_spot_requests cluster requests = select (λ r. contains r.groups cluster) requests

-- The request as ec2_runner.py reads it from the JSON, with the user data decoded: it has the key
-- `placement` and no `availability_zone`. The key `placement_group` is read by nothing.
unfoldable pub submission_of : Launch → List String → String → Submission
submission_of l groups content = record {
  request = record {
    image_id = some (some l.image_id);
    count = some (number l.number);
    key_name = l.key_name;
    security_groups = some groups;
    instance_type = some l.size_id;
    use_spot = some l.use_spot;
    user_data = some (some content);
    availability_zone = none;
  };
  placement = some l.placement;
}

-- `wait_for_spot_instances`: `time` is not imported.
unfoldable pub wait_for_spot_instances : {A B : Type 0} → List String → Exec A B
wait_for_spot_instances ids = raise (name_error "time")

module _ (C : Compute) where
  module _ (runner : Submission → Action C (List String)) where
    -- What is made of the answer of the program. `wait_for_spot_instances` is a method and not a
    -- function.
    unfoldable pub ids_of : Bool → List String → Action C (List String)
    ids_of true result = raise (name_error "wait_for_spot_instances")
    ids_of false result = return result

    unfoldable pub submit : Launch → List String → String → Action C (List String)
    submit l groups content = do
      result ← runner (submission_of l (groups ++ l.security_groups) content)
      ids_of l.use_spot result

    unfoldable pub launch_instances : String → Launch → Action C (List String)
    launch_instances name l = do
      for_each l.roles (λ role. do check_role_name C role; create_groups C name role)
      content ← lift l.user_data
      groups ← get_group_names C name l.roles
      submit l groups content

  module _ (get_all_spot_instance_requests : C.Cloud → List SpotRequest)
      (cancel : String → Action C (Unit {0})) where
    unfoldable pub terminate : String → Action C (Unit {0})
    terminate name = do
      requests ← (λ c. (ok (get_spot_requests name (get_all_spot_instance_requests c)), c))
      for_each requests (λ r. cancel r.id)
      instances ← (λ c. (ok (instances_of name (some "running") (C.get_all_instances c)), c))
      when (not (is_empty instances)) (C.terminate_instances (map (λ i. i.id) instances))
