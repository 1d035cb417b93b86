-- ===== src/Cluster/Tests.antt =====
-- The groups and the waiting of a small cluster (hadoop/cloud/providers/ec2.py).
use ec2_wrappers.Prelude.{ℕ, ◌<◌, some, String, true, none, List, [], ◌∷◌, ◌++◌, ok}
use ec2_wrappers.Prelude.{raised, Result, refl, ◌≡◌, char_eq, string_eq, nat_eq, arith, ec2_error}
use ec2_wrappers.Prelude.{if◌then◌else◌, ltb}
use ec2_wrappers.Ec2.{Instance, Reservation}
use ec2_wrappers.Cluster.{
  all_started, is_ec2_error, Compute, is_role_name, is_role_end, is_role_char, is_end, role_group,
  create_groups, wait_for_instances, check_role_name, group_name_for_role, create_cluster_group,
}
use ec2_wrappers.Cluster.Groups.{IsLawful}
use ec2_wrappers.Cluster.Waiting.{Tolerated, wait_for_instances_succeeds}

-- An account with security groups and nothing else.
abbrev account : Compute
account = record {
  Cloud = List String;
  get_all_security_groups = λ c. c;
  create_security_group = λ name text c. (ok tt, c ++ (name ∷ []));
  authorize_group = λ name other c. (ok tt, c);
  authorize_ports = λ name a b net c. (ok tt, c);
  revoke_ports = λ name a b net c. (ok tt, c);
  get_all_instances = λ c. [];
  run_instances = λ l c. (raised ec2_error, c);
  terminate_instances = λ ids c. (ok tt, c);
  delete_security_group = λ name c. (ok tt, c);
}

account-IsLawful : IsLawful account
account-IsLawful = record {
  creates = λ name text c h. refl;
  authorizes = λ name other c. refl;
  opens = λ name a b net c. refl;
}

test-create_groups :
    create_groups account "ab" "nn" ("default" ∷ []) ≡ (ok tt, "default" ∷ "ab" ∷ "ab-nn" ∷ [])
unfolding create_groups check_role_name group_name_for_role create_cluster_group is_role_name
    is_role_end is_role_char is_end role_group char_eq string_eq nat_eq
test-create_groups = refl

-- EC2 does not know the instances at first, and reports them as running from the third time on.
abbrev answers : ℕ → Result (List Reservation)
answers n = if ltb n 3 then raised ec2_error else ok []

tolerated : (k : ℕ) → k < 3 → Tolerated (λ n. n) answers 10 (answers k)
unfolding is_ec2_error
tolerated k h = let soon : (ltb k 3 ≡ true) = ground arith in rw soon refl

-- The third turn is the first in which EC2 answers, with room for five.
wait_for_instances_succeeds_example : wait_for_instances 5 (λ n. n) answers 10 ≡ some (ok tt)
unfolding all_started is_ec2_error
wait_for_instances_succeeds_example =
    wait_for_instances_succeeds (λ n. n) answers 10 3 [] (λ a b h. h) tolerated refl refl
      (omega arith) 5 (omega arith) (omega arith)

abbrev pub worker : Instance
worker = record {
  id = "i-1";
  key_name = none;
  instance_type = "m1.small";
  launch_time = "t";
  state = "pending";
  spot_instance_request_id = none;
  dns_name = "";
  private_dns_name = "";
}

-- An account with security groups and reservations of one instance each.
abbrev pub farm : Compute
farm = record {
  Cloud = List String × List Reservation;
  get_all_security_groups = λ c. c.0;
  create_security_group = λ name text c. (ok tt, (c.0 ++ (name ∷ []), c.1));
  authorize_group = λ name other c. (ok tt, c);
  authorize_ports = λ name a b net c. (ok tt, c);
  revoke_ports = λ name a b net c. (ok tt, c);
  get_all_instances = λ c. c.1;
  run_instances = λ l c.
      let res : Reservation = record { groups = l.security_groups; instances = worker ∷ [] } in
      (ok res, (c.0, c.1 ++ (res ∷ [])));
  terminate_instances = λ ids c. (ok tt, c);
  delete_security_group = λ name c. (ok tt, c);
}
