-- ===== src/Course/Tests.antt =====
-- Launches and lists of the course (cs61cec2.py) on a small account.
use ec2_wrappers.Prelude.{false, none, some, [], ◌∷◌, ok, string_eq, char_eq}
use ec2_wrappers.Course.{Launch, launch_instances}
use ec2_wrappers.Prelude.{ec2_error, raised}
use ec2_wrappers.Prelude.Reaches.{AfterResult}
use ec2_wrappers.Accounts.{World}
use ec2_wrappers.Accounts.Tests.{small, world}
use ec2_wrappers.Cluster.{Compute}
use ec2_wrappers.Course.Limited.{Sent, runner_of, launch_instances-Granted}

abbrev launch : Launch
launch = record {
  roles = "nn" ∷ [];
  number = 1;
  image_id = "ami-1";
  size_id = "m1.small";
  user_data = ok "data";
  security_groups = [];
  key_name = some "ab-default";
  placement = none;
  placement_group = none;
  use_spot = false;
}

-- The world of the accounts, with a student who has access keys.
abbrev accounts : World small
accounts = record (world []) {
  tables = record {
    users = [];
    access_keys = ("AK0", record { user_name = "ab"; secret_access_key = "secret" }) ∷ [];
    ssh_keys = [];
  };
}

-- EC2 as the cluster sees it, whose security groups are not looked at.
abbrev open_account : Compute
open_account = record {
  Cloud = World small;
  get_all_security_groups = λ w. [];
  create_security_group = λ name text w. (ok tt, w);
  authorize_group = λ name other w. (ok tt, w);
  authorize_ports = λ name a b net w. (ok tt, w);
  revoke_ports = λ name a b net w. (ok tt, w);
  get_all_instances = λ w. [];
  run_instances = λ l w. (raised ec2_error, w);
  terminate_instances = λ ids w. (ok tt, w);
  delete_security_group = λ name w. (ok tt, w);
}

launch_instances-Granted_example :
    AfterResult
      (λ ids (_ : World small).
        Sent small open_account "ab" (λ s. ok s) (λ w. w) (λ w c. w) "ab-cluster" launch accounts)
      (launch_instances open_account
        (runner_of small open_account "ab" (λ s. ok s) (λ w. w) (λ w c. w))
        "ab-cluster"
        launch
        accounts)
launch_instances-Granted_example =
    launch_instances-Granted small open_account "ab" (λ s. ok s) (λ w. w) (λ w c. w) "ab-cluster"
      launch accounts
