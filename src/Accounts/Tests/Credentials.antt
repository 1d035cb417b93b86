-- ===== src/Accounts/Tests/Credentials.antt =====
-- The credentials of a student, and the making of a user (subaccounts.py), on a small database.
use ec2_wrappers.Prelude.{none, some, [], ◌∷◌, ok, raised, Exn, refl, ◌≡◌}
use ec2_wrappers.Prelude.{◌⊎◌, true, false, string_eq, char_eq, nat_eq}
use ec2_wrappers.Prelude.{key_error}
use ec2_wrappers.Prelude.Text.{starts_with}
use ec2_wrappers.Accounts.{
  number, make, run_instances, run_number, cost_instances, cost_proposal, running_instances,
  counted, with_key_prefix, is_running, sum_costs, check, instance_cost, launch, launch_demand,
}
use ec2_wrappers.Accounts.{World}
use ec2_wrappers.Accounts.Lifecycle.{make_user}
use ec2_wrappers.Accounts.Lifecycle.Outcome.{make_user_lem}
use ec2_wrappers.Accounts.Runner.{
  Submission, Options, Input, main, request_of, request_of_options, request_of_json, decoded,
  submit, has_own_key, completed, user_data_of, zone_of, stdin_of, ids_launched,
}
use ec2_wrappers.Accounts.Runner.Guard.{Admitted, Stopped, main-guarded, main_counted}
use ec2_wrappers.Accounts.Tests.{has_prefix, small, world}

-- Two students with a key pair and an access key each.
abbrev two_students : World small
two_students = record (world []) {
  tables = record {
    users =
        ("cs61c-ab", record { create_time = "t"; create_account = "cs61c"; login_password = none })
        ∷ [];
    access_keys =
        ("AK0", record { user_name = "cs61c-ab"; secret_access_key = "secret" })
        ∷ ("AK9", record { user_name = "cs61c-cd"; secret_access_key = "other" })
        ∷ [];
    ssh_keys =
        (
          "cs61c-ab-default",
          record { user_name = "cs61c-ab"; private_key = "pem"; fingerprint = "print" },
        )
        ∷ (
          "cs61c-cd-default",
          record { user_name = "cs61c-cd"; private_key = "pem"; fingerprint = "print" },
        )
        ∷ [];
  };
}

make_user_example :
    ((e : Exn) × ((make_user small (λ text. ok text) "t" "cs61c" "cs61c-ef" two_students).0
        ≡ raised e))
    × ((make_user small (λ text. ok text) "t" "cs61c" "cs61c-ef" two_students).1.tables
        ≡ two_students.tables)
make_user_example = make_user_lem small (λ text. ok text) "t" "cs61c" "cs61c-ef" two_students

abbrev submission : Submission
submission = record {
  request = record {
    image_id = some (some "ami-1");
    count = some (number 2);
    key_name = some "cs61c-ab-default";
    security_groups = some ("default" ∷ []);
    instance_type = some "m1.small";
    use_spot = some false;
    user_data = none;
    availability_zone = none;
  };
  placement = some (some "us-east-1a");
}

-- The options of a program that writes the request to standard input.
abbrev options : Options
options = record {
  image_id = none;
  count = none;
  key_name = none;
  availability_zone = none;
  placement_group = none;
  instance_type = none;
  user_data = none;
  use_spot = false;
  security_groups = [];
  stdin_user_data = false;
  stdin_json = true;
  args = [];
}

abbrev input : Input
input = record { json = ok submission; text = ""; b64decode = λ text. ok text }

main-guarded_example :
    Admitted small "cs61c-ab" (ok options) input two_students
    ⊎ Stopped small two_students (main small "cs61c-ab" (ok options) input two_students)
main-guarded_example = main-guarded small "cs61c-ab" (ok options) input two_students

abbrev three : Options
three = record options { count = some "3"; stdin_json = false; instance_type = some "m1.small" }

main_counted_example :
    Stopped small two_students (main small "cs61c-ab" (ok three) input two_students)
main_counted_example =
    main_counted small "cs61c-ab" (ok three) input two_students three "3" refl refl refl

test-main :
    (main small "cs61c-ab" (ok options) input two_students).0 ≡ raised (key_error "user_data")
unfolding main make request_of request_of_options request_of_json decoded submit has_own_key
    starts_with char_eq string_eq nat_eq run_instances run_number cost_instances cost_proposal
    running_instances counted with_key_prefix is_running sum_costs has_prefix check completed
    instance_cost launch launch_demand user_data_of zone_of stdin_of ids_launched
test-main = refl

-- With an AMI and a type alone, one instance is launched.
abbrev plain : Options
plain = record options {
  image_id = some "ami-1";
  stdin_json = false;
  instance_type = some "m1.small";
}

test-plain : (main small "cs61c-ab" (ok plain) input two_students).0 ≡ ok ("i-1" ∷ [])
unfolding main make request_of request_of_options request_of_json decoded submit has_own_key
    starts_with char_eq string_eq nat_eq run_instances run_number cost_instances cost_proposal
    running_instances counted with_key_prefix is_running sum_costs has_prefix check completed
    instance_cost launch launch_demand user_data_of zone_of stdin_of ids_launched
test-plain = refl
