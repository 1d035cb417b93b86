-- ===== src/Service/Dummy.antt =====
-- hadoop/cloud/providers/dummy.py: a cluster that writes its calls to the log and does nothing else, with
-- the storage of hadoop/cloud/storage.py that a cluster has by default.
use ec2_wrappers.Prelude.{
  false, String, none, List, [], ◌∷◌, ◌++◌, Exec, return, raise, modify, ◌>>◌,
}
use ec2_wrappers.Prelude.{exception, attribute_error, ok, ◌≡◌, refl, nat_eq}
use ec2_wrappers.Storage.{Instance}
use ec2_wrappers.Service.{Provider, check_running}

-- A message of the log, less its arguments.
abbrev pub logged : String → Exec (List String) (Unit {0})
logged method = modify (λ log. log ++ (method ∷ []))

-- The only instance; its id is the number 1.
abbrev pub dummy_instance : Instance
dummy_instance = record { id = "1"; public_ip = "127.0.0.1"; private_ip = "127.0.0.1" }

abbrev pub dummy_cluster : String → Provider
dummy_cluster name = record {
  World = List String;
  name = name;
  provider_code = "dummy";
  print_status = λ roles. logged "print_status";
  get_instances_in_role = λ role. logged "get_instances_in_role" >> return (dummy_instance ∷ []);
  launch_instances = λ order. logged "launch_instances" >> return ("1" ∷ []);
  wait_for_instances = λ ids. logged "wait_for_instances";
  authorize_role = λ role from to network. logged "authorize_role";
  terminate = logged "terminate";
  delete = logged "delete";
  has_any_storage = λ roles. return false;
  get_mappings_string_for_role = λ role. raise (exception "Unimplemented");
  attach = λ role instances. return tt;
  create_storage = λ role n zone file. return tt;
  delete_storage = λ roles. return tt;
  print_storage = λ roles. return tt;
  get_clusters_with_role = λ role. logged "get_clusters_with_role" >> return ("dummy-cluster" ∷ []);
  -- It has no `ec2Connection`.
  create_formatted_snapshot = λ size zone image key options. raise attribute_error;
  get_storage_roles = return [];
}

-- Two instances are never found.
test-check_running :
    (check_running (dummy_cluster "c") "nn" 2 (record { cluster = []; files = []; calls = [] })).0
    ≡ ok none
unfolding check_running nat_eq
test-check_running = refl
