-- ===== src/Cli/Commands.antt =====
-- `main` of hadoop/cloud/cli.py, up to the call of the service.
use ec2_wrappers.Prelude.{ℕ, Bool, true, false, String, none, some, List, [], ◌∷◌, ok}
use ec2_wrappers.Prelude.{raised, system_exit, key_error, is_empty, string_eq}
use ec2_wrappers.Prelude.Dict.{Dict, lookup}
use ec2_wrappers.Util.{Value, merge_config_with_options}
use ec2_wrappers.Service.Zookeeper.{ServiceClass, get_service}
use ec2_wrappers.Cli.{
  Call, Plan, Console, Flow, word, number, truthy, ◌>>=◌, ◌>>◌, get_cluster, option, get_config_dir,
  get_service_name, get_cloud_provider, parse_options, config_files, check_options_set,
  check_launch_options_set, template, master_roles, slave_roles, cluster_templates, list_all, list,
  launch_master, launch_slaves, launch_cluster, login, proxy, push, execute, terminate_cluster,
  delete_cluster, create_formatted_snapshot, list_storage, create_storage, attach_storage,
  delete_storage, update_slaves_file,
}

-- What `parse_options_and_config` returns, with the choices that went into its service.
pub record Context : Type 0 where
  pub opt : Dict String Value
  pub args : List String
  pub service : ServiceClass
  pub provider : String
  pub cluster : String

unfoldable pub parse_options_and_config : Console → String → List String → ℕ → Bool → Flow Context
parse_options_and_config C command words expected unbounded = do
  parsed ← parse_options C command words expected unbounded
  name ← word parsed.args 0
  let section = C.config_section (config_files C parsed.options) name
  let opt = merge_config_with_options section parsed.options
  let provider = get_cloud_provider (lookup "cloud_provider" opt)
  get_cluster provider
  service ← get_service (get_service_name (lookup "service" opt)) provider
  ok (record {
    opt = opt;
    args = parsed.args;
    service = service;
    provider = provider;
    cluster = name;
  })

abbrev pub planned : Context → Call → Plan
planned c call = record {
  service = c.service;
  provider = c.provider;
  cluster = some c.cluster;
  call = call;
}

-- `opt["force"]`
abbrev pub forced : Dict String Value → Flow Bool
forced opt = elim (lookup "force" opt) [
  | none ↦ raised (key_error "force")
  | some v ↦ ok (truthy v)
]

abbrev dir_of : Console → Context → String
dir_of C c = get_config_dir C (lookup "config_dir" c.opt)

-- A command whose call is made from its options and arguments.
abbrev pub simple : Console → String → List String → ℕ → (Context → Flow Call) → Flow Plan
simple C command words expected make = do
  c ← parse_options_and_config C command words expected false
  call ← make c
  ok (planned c call)

unfoldable pub plan_list : Console → List String → Flow Plan
plan_list C words = do
  parsed ← parse_options C "list" words 0 true
  let provider = get_cloud_provider (option "cloud_provider" parsed.options)
  elim (is_empty parsed.args) [
    | false ↦ simple C "list" words 1 (λ c. ok list)
    | true ↦ (do
      service ← get_service (get_service_name (option "service" parsed.options)) provider
      ok (record { service = service; provider = provider; cluster = none; call = list_all }))
  ]

unfoldable pub plan_launch_master : Console → List String → Flow Plan
plan_launch_master C words = simple C "launch-master" words 1 (λ c. do
  check_launch_options_set c.provider c.opt
  ok (
      launch_master (template c.provider c.opt master_roles 1) (dir_of C c)
        (lookup "client_cidr" c.opt)))

unfoldable pub plan_launch_slaves : Console → List String → Flow Plan
plan_launch_slaves C words = simple C "launch-slaves" words 2 (λ c. do
  n ← number c.args 1
  check_launch_options_set c.provider c.opt
  ok (launch_slaves (template c.provider c.opt slave_roles n)))

unfoldable pub plan_launch_cluster : Console → List String → Flow Plan
plan_launch_cluster C words = do
  c ← parse_options_and_config C "launch-cluster" words 2 true
  check_launch_options_set c.provider c.opt
  its ← cluster_templates c.provider c.opt c.args
  ok (
      planned c
        (launch_cluster its (dir_of C c) (lookup "client_cidr" c.opt) (lookup "proxy_port" c.opt)))

-- `args[1:]`
abbrev without_first : List String → List String
without_first [] = []
without_first (cluster ∷ rest) = rest

unfoldable pub plan_execute : Console → List String → Flow Plan
plan_execute C words = do
  c ← parse_options_and_config C "exec" words 2 true
  ok (planned c (execute (lookup "ssh_options" c.opt) (without_first c.args)))

unfoldable pub plan_create_snapshot : Console → List String → Flow Plan
plan_create_snapshot C words = simple C "create-formatted-snapshot" words 2 (λ c. do
  size ← number c.args 1
  check_options_set c.opt ("availability_zone" ∷ "key_name" ∷ [])
  ok (
      create_formatted_snapshot size (lookup "availability_zone" c.opt) "ami-ec48af85"
        (lookup "key_name" c.opt) (lookup "ssh_options" c.opt)))

unfoldable pub plan_create_storage : Console → List String → Flow Plan
plan_create_storage C words = simple C "create-storage" words 4 (λ c. do
  role ← word c.args 1
  n ← number c.args 2
  spec_file ← word c.args 3
  check_options_set c.opt ("availability_zone" ∷ [])
  ok (create_storage role n (lookup "availability_zone" c.opt) spec_file))

unfoldable pub plan_update_slaves_file : Console → List String → Flow Plan
plan_update_slaves_file C words = simple C "update-slaves-file" words 1 (λ c. do
  check_options_set c.opt ("private_key" ∷ [])
  ok (update_slaves_file (dir_of C c) (lookup "ssh_options" c.opt) (lookup "private_key" c.opt)))

-- The commands with what they lead to.
unfoldable pub commands : Console → List (String × (List String → Flow Plan))
commands C =
    ("list", plan_list C)
    ∷ ("launch-master", plan_launch_master C)
    ∷ ("launch-slaves", plan_launch_slaves C)
    ∷ ("launch-cluster", plan_launch_cluster C)
    ∷ ("login", λ ws. simple C "login" ws 1 (λ c. ok (login (lookup "ssh_options" c.opt))))
    ∷ (
      "proxy",
      λ ws.
          simple C "proxy" ws 1
            (λ c. ok (proxy (lookup "ssh_options" c.opt) (lookup "proxy_port" c.opt))),
    )
    ∷ (
      "push",
      λ ws.
          simple C "push" ws 2
            (λ c. do file ← word c.args 1; ok (push (lookup "ssh_options" c.opt) file)),
    )
    ∷ ("exec", plan_execute C)
    ∷ (
      "terminate-cluster",
      λ ws.
          simple C "terminate-cluster" ws 1
            (λ c. do force ← forced c.opt; ok (terminate_cluster force)),
    )
    ∷ ("delete-cluster", λ ws. simple C "delete-cluster" ws 1 (λ c. ok delete_cluster))
    ∷ ("create-formatted-snapshot", plan_create_snapshot C)
    ∷ ("list-storage", λ ws. simple C "list-storage" ws 1 (λ c. ok list_storage))
    ∷ ("create-storage", plan_create_storage C)
    ∷ (
      "attach-storage",
      λ ws. simple C "attach-storage" ws 2 (λ c. do role ← word c.args 1; ok (attach_storage role)),
    )
    ∷ (
      "delete-storage",
      λ ws.
          simple C "delete-storage" ws 1 (λ c. do force ← forced c.opt; ok (delete_storage force)),
    )
    ∷ ("update-slaves-file", plan_update_slaves_file C)
    ∷ []

-- Everything of `main` before the call of the service, for `sys.argv`.
unfoldable pub plan : Console → List String → Flow Plan
plan C (script ∷ command ∷ words) = elim (lookup command (commands C)) [
  | none ↦ raised (system_exit 1)
  | some run ↦ run words
]
plan C other = raised (system_exit 1)
