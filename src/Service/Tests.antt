-- ===== src/Service/Tests.antt =====
-- A small Hadoop cluster (hadoop/cloud/service.py).
use ec2_wrappers.Prelude.{ℕ, zero, suc, false, String, ◌<>◌, none, some, List, [], ◌∷◌, ◌++◌, map}
use ec2_wrappers.Prelude.{ok, raised, refl, ◌≡◌, arith, Exec, return, contains, string_eq, select}
use ec2_wrappers.Prelude.{char_eq, if◌then◌else◌, Exn}
use ec2_wrappers.Prelude.Text.{all_chars, has_char}
use ec2_wrappers.Util.{lines}
use ec2_wrappers.Util.Words.{is_plain}
use ec2_wrappers.Storage.{Instance}
use ec2_wrappers.Service.{
  Provider, Host, World, InstanceTemplate, add_env_strings, strings_or_none, strings_of,
  launch_instances, quotable, check_running,
}
use ec2_wrappers.Service.Hadoop.{Polls, wait_for_hadoop}
use ec2_wrappers.Prelude.{
  ◌>>=◌, ◌>>◌, lift, ◌<◌, some, Bool-cases, inl, inr, ltb, ◌-◌, nat_eq, Char,
}
use ec2_wrappers.Prelude.Number.{upper}
use ec2_wrappers.Prelude.Text.{replace}
use ec2_wrappers.Util.{build_env_string}
use ec2_wrappers.Util.Words.{words, plain}
use ec2_wrappers.Util.Quoting.{assign, assign_pair}
use ec2_wrappers.Storage.{characters}
use ec2_wrappers.Service.{
  start_instances, ebs_mappings, env_text, script_of, first, unless_timeout, host_env,
  sanitize_role_name,
}
use ec2_wrappers.Service.Hadoop.{
  is_io_error, hosts_of, launch_cluster_instances, attach_all, get_first, jobtracker,
}
use ec2_wrappers.Service.Hadoop.Launching.{launch_slaves}
use ec2_wrappers.Service.Hosts.{common}
use ec2_wrappers.Service.Slaves.{with_strings}
use ec2_wrappers.Service.Ready.{Tolerated, wait_for_hadoop_succeeds}
use ec2_wrappers.Service.Patience.{Finished, wait_for_hadoop-Finished}
use ec2_wrappers.Service.Hosts.{launch_cluster_instances-hosts}
use ec2_wrappers.Service.Slaves.{launch_slaves-pieces}

-- The instances with their roles.
abbrev pub Machines : Type 0
Machines = List (List String × Instance)

abbrev pub machine : String → Instance
machine id = record { id = id; public_ip = id <> ".example.org"; private_ip = "10.0.0.1" }

abbrev copies : List String → ℕ → String → Machines
copies roles zero id = []
copies roles (suc n) id = (roles, machine id) ∷ copies roles n (id <> "x")

abbrev quiet : Exec Machines (Unit {0})
quiet = return tt

-- An account that launches what is asked for.
abbrev pub provider : Provider
provider = record {
  World = Machines;
  name = "c";
  provider_code = "ec2";
  print_status = λ roles. quiet;
  get_instances_in_role = λ role ms. (ok (map (λ m. m.1) (select (λ m. contains m.0 role) ms)), ms);
  launch_instances = λ order ms. (ok [], ms ++ copies order.roles order.number "m");
  wait_for_instances = λ ids. quiet;
  authorize_role = λ role from to network. quiet;
  terminate = quiet;
  delete = quiet;
  has_any_storage = λ roles. return false;
  get_mappings_string_for_role = λ role. return "";
  attach = λ role instances. quiet;
  create_storage = λ role n zone spec. quiet;
  delete_storage = λ roles. quiet;
  print_storage = λ roles. quiet;
  get_clusters_with_role = λ role. return [];
  create_formatted_snapshot = λ size zone image key options. quiet;
  get_storage_roles = return [];
}

abbrev pub machine_of_user : Host
machine_of_user = record {
  environ = λ name. some "key";
  raw_input = λ question. "no";
  gethostbyname = λ name. ok "10.0.0.1";
  own_address = ok "10.0.0.2";
  directory = ".";
}

abbrev pub it_of : List String → ℕ → List String → InstanceTemplate
it_of roles number strings = record {
  roles = roles;
  number = number;
  image_id = none;
  size_id = none;
  key_name = none;
  public_key = none;
  private_key = none;
  user_data_file_template = none;
  placement = none;
  user_packages = none;
  auto_shutdown = none;
  env_strings = some (lines strings);
  security_groups = none;
}

abbrev nothing : World provider
nothing = record { cluster = []; files = []; calls = [] }

abbrev masters : Machines
masters = (("nn" ∷ "snn" ∷ "jt" ∷ []), machine "m") ∷ []

abbrev master : World provider
master = record { cluster = masters; files = []; calls = [] }

abbrev master_template : InstanceTemplate
master_template = it_of ("nn" ∷ "snn" ∷ "jt" ∷ []) 1 []

abbrev slave_settings : List (String × String)
slave_settings = ("A", "1") ∷ []

abbrev slave_template : InstanceTemplate
slave_template = it_of ("dn" ∷ "tt" ∷ []) 2 (map assign slave_settings)

abbrev hosts : List String
hosts = map (λ role. host_env role (machine "m").public_ip) master_template.roles

abbrev with_hosts : InstanceTemplate
with_hosts = record slave_template {
  env_strings = some (lines (map assign slave_settings ++ hosts));
}

launch_cluster_instances-hosts_example :
    (launch_cluster_instances provider machine_of_user
        (master_template ∷ slave_template ∷ [])
        []
        nothing
      ≡ (launch_instances provider machine_of_user "hadoop" with_hosts >>= (λ r.
            lift (hosts_of slave_template r)
            >>= (λ more. launch_cluster_instances provider machine_of_user [] (hosts ++ more))))
          master)
    × ((env : String) × (env_text with_hosts "key" "key" "" ≡ ok env)
        × (words plain env
            ≡ some (
                (map assign slave_settings ++ hosts)
                ++ map assign_pair (common ("dn" ∷ "tt" ∷ []) none none "" "key" "key"))))
unfolding add_env_strings strings_or_none strings_of launch_instances start_instances ebs_mappings
    env_text build_env_string quotable script_of first unless_timeout characters all_chars has_char
    is_plain char_eq host_env sanitize_role_name upper replace string_eq
launch_cluster_instances-hosts_example =
    launch_cluster_instances-hosts provider machine_of_user master_template master_template
      slave_template [] slave_settings none none "key" "key" "" (machine "m") nothing master refl
      refl refl refl refl refl ((refl, refl, refl), tt)
      ((refl, refl, refl), ((refl, refl, refl), ((refl, refl, refl), tt)))

-- A jobtracker that answers in the second turn, with a tasktracker more in each turn, and a clock of
-- seconds.
abbrev pub polls : Polls
polls = record {
  clock = λ n. n;
  tasktrackers = λ n. if ltb n 2 then raised Exn.io_error else ok (n - 2);
}

wait_for_hadoop-Finished_example : Finished polls 5 600 (wait_for_hadoop 601 polls 5 600)
wait_for_hadoop-Finished_example =
    wait_for_hadoop-Finished polls 5 600 600 (ground arith) 601 (ground arith) (ground arith)

launch_slaves-pieces_example :
    (strings : List String) × (launch_slaves provider machine_of_user slave_template master
      ≡ (launch_instances provider machine_of_user "hadoop" (with_strings slave_template strings)
            >> (attach_all provider machine_of_user ("dn" ∷ "tt" ∷ [])
                >> (get_first provider machine_of_user jobtracker >> return tt)))
          master)
    × ((c d : Char) (s : String)
        → contains strings (String.◌∷◌ c (String.◌∷◌ d s))
          ≡ contains (map assign slave_settings) (String.◌∷◌ c (String.◌∷◌ d s)))
unfolding check_running string_eq nat_eq strings_or_none strings_of
launch_slaves-pieces_example =
    launch_slaves-pieces provider machine_of_user slave_template (map assign slave_settings)
      (machine "m") master master refl refl

tolerated : (k : ℕ) → k < 7 → Tolerated (polls.tasktrackers k)
unfolding is_io_error
tolerated k h = elim (Bool-cases (ltb k 2)) [ inl e ↦ rw e refl | inr e ↦ rw e tt ]

wait_for_hadoop_succeeds_example : wait_for_hadoop 20 polls 5 600 ≡ some (ok tt)
wait_for_hadoop_succeeds_example =
    wait_for_hadoop_succeeds polls 5 600 7 5 (λ a b h. h) tolerated refl (omega arith) (omega arith)
      20 (omega arith) (omega arith)
