-- ===== src/Service/Ec2.antt =====
-- Ec2Cluster with its Ec2Storage (hadoop/cloud/providers/ec2.py) as the cluster of a service.
mod Shapes
pub mod Volume
pub mod Snapshot
pub mod Waits
pub mod Launched
pub mod Tests
unfoldable pub use Shapes.*
use ec2_wrappers.Prelude.{ℕ, zero, suc, Bool, String, ◌<>◌, Option, none, some, List, [], ◌∷◌, ◌++◌}
use ec2_wrappers.Prelude.{
  map, Result, ok, raised, Exec, return, raise, lift, modify, timeout, index_error, ◌>>=◌, ◌>>◌,
}
use ec2_wrappers.Util.{Value, text}
use ec2_wrappers.Ec2
use ec2_wrappers.Ec2.{Reservation}
use ec2_wrappers.Cluster
use ec2_wrappers.Cluster.Status as InstanceStatus
use ec2_wrappers.Storage
use ec2_wrappers.Storage.Status as VolumeStatus
use ec2_wrappers.Storage.{Instance}
use ec2_wrappers.Service.{Provider, Order, first, unless_timeout}
use ec2_wrappers.Service.UserData.{read}
use Shapes.{Account, volumes, wait_for_volume, in_time}

-- A setting that holds a text.
unfoldable pub text_of : Option Value → Option String
text_of (some (text s)) = some s
text_of other = none

unfoldable pub or_empty : Option String → String
or_empty none = ""
or_empty (some s) = s

-- The `Instance` of hadoop/cloud/cluster.py for one of boto.
unfoldable pub instance_of : Ec2.Instance → Instance
instance_of i = record { id = i.id; public_ip = i.dns_name; private_ip = i.private_dns_name }

-- `read_as_gzip_stream`, for the file and the replacement of an order.
unfoldable pub user_data : Account → Order → Result String
user_data E o = elim (E.read_file (or_empty (text_of (some o.user_data_file)))) [
  | raised e ↦ raised e
  | ok contents ↦ ok (E.gzip (read (("%ENV%", some o.env) ∷ []) contents))
]

-- The command that makes a file system on the volume.
abbrev pub format_command : String
format_command =
    "\n      while true ; do\n        echo 'Waiting for /dev/sdj...';\n        if [ -e /dev/sdj ]; then break; fi;\n        sleep 1;\n      done;\n      mkfs.ext3 -F -m 0.5 /dev/sdj\n    "

module _ (E : Account) where
  -- EC2 with the file of the volumes, and the commands that a shell has run.
  pub record Site : Type 0 where
    pub storage : Storage.World (volumes E)
    pub commands : List String

  abbrev pub Action : Type 0 → Type 0
  Action A = Exec Site A

  abbrev pub in_storage : {A : Type 0} → Storage.Action (volumes E) A → Action A
  in_storage m s = let (r, w) = m s.storage in (r, record s { storage = w })

  abbrev pub in_cloud : {A : Type 0} → Cluster.Action E.compute A → Action A
  in_cloud m = in_storage (Storage.call (volumes E) m)

  -- A wait of the program.
  abbrev pub awaiting : (E.compute.Cloud → Result (Unit {0})) → Action (Unit {0})
  awaiting r = in_cloud (λ c. (r c, E.later c))

  -- `wait_for_instances` with its default of 600 seconds.
  unfoldable pub wait_for_instances : ℕ → List String → Action (Unit {0})
  wait_for_instances patience ids =
      awaiting (λ c.
        in_time (Cluster.wait_for_instances patience E.clock (λ n. E.instances_at ids n c) 600))

  unfoldable pub get_instances_in_role : String → String → Action (List Instance)
  get_instances_in_role name role = do
    instances ← in_cloud (Cluster.get_instances_in_role E.compute name role (some "running"))
    return (map instance_of instances)

  -- The settings are texts; `""` stands for one that is missing.
  unfoldable pub launch_instances : String → Order → Action (List String)
  launch_instances name o = in_cloud (
      Cluster.launch_instances E.compute name o.roles o.number (or_empty (text_of o.image_id))
        (or_empty (text_of o.size_id)) (user_data E o) [] (text_of o.key_name)
        (text_of o.placement))

  abbrev pub forget : {A : Type 0} → Action A → Action (Unit {0})
  forget m = m >>= λ _. return tt

  -- `_run_command_on_instance`; nothing reads the status of the command.
  unfoldable pub run_command_on_instance : String → String → String → Action (Unit {0})
  run_command_on_instance ssh_options host command = modify (λ s. record s {
    commands =
        s.commands
        ++ (("ssh " <> (ssh_options <> (" root@" <> (host <> (" '" <> (command <> "'")))))) ∷ []);
  })

  -- `create_formatted_snapshot` past the wait for the instance.
  unfoldable pub format_volume : ℕ → String → ℕ → Option String → String → Action (Unit {0})
  format_volume patience id size zone ssh_options = do
    host ← in_cloud (λ c. (E.update id c, c))
    volume ← in_cloud (E.create_blank_volume size zone)
    in_cloud (E.attach_volume volume id "/dev/sdj")
    run_command_on_instance ssh_options host format_command
    in_cloud (E.detach_volume volume id)
    in_cloud (E.create_snapshot volume)
    awaiting (λ c. in_time (wait_for_volume patience (λ n. E.volumes_at volume n c) 1))
    in_cloud (E.delete_volume volume)
    in_cloud (E.compute.terminate_instances (id ∷ []))

  -- `create_formatted_snapshot` from the wait for its instance on, which returns where this times out.
  unfoldable pub await_instance : ℕ → ℕ → Option String → String → Ec2.Instance → Action (Unit {0})
  await_instance patience size zone ssh_options instance = do
    started ← unless_timeout (wait_for_instances patience (instance.id ∷ []))
    elim started [
      | none ↦ return tt
      | some _ ↦ format_volume patience instance.id size zone ssh_options
    ]

  -- `reservation.instances[0]`
  abbrev pub only_instance : Reservation → Result Ec2.Instance
  only_instance res = elim (first res.instances) [ none ↦ raised index_error | some i ↦ ok i ]

  unfoldable pub create_formatted_snapshot :
      ℕ → ℕ → Option Value → String → Option Value → String → Action (Unit {0})
  create_formatted_snapshot patience size zone image_id key_name ssh_options = do
    reservation ← in_cloud (E.run_instance image_id (text_of key_name) (text_of zone))
    instance ← lift (only_instance reservation)
    await_instance patience size (text_of zone) ssh_options instance

  -- The cluster of a name. `patience` is the number of turns after which the user ends a wait.
  abbrev pub provider_of : ℕ → String → Provider
  provider_of patience name = record {
    World = Site;
    name = name;
    provider_code = "ec2";
    print_status = λ roles.
        forget (in_cloud (InstanceStatus.print_status E.compute name (some "running") roles));
    get_instances_in_role = get_instances_in_role name;
    launch_instances = launch_instances name;
    wait_for_instances = wait_for_instances patience;
    authorize_role = λ role from to network.
        in_cloud (Cluster.authorize_role E.compute name role from to network);
    terminate = in_cloud (Cluster.terminate E.compute name);
    delete = in_cloud (Cluster.delete_groups E.compute name);
    has_any_storage = λ roles. in_storage (Storage.has_any_storage (volumes E) roles);
    get_mappings_string_for_role =
        λ role. in_storage (Storage.get_mappings_string_for_role (volumes E) role);
    attach = λ role instances. in_storage (Storage.attach (volumes E) role instances);
    create_storage = λ role n zone file. do
      specs ← lift (E.read_specs file)
      in_storage (Storage.create (volumes E) role n (or_empty (text_of zone)) specs);
    delete_storage = λ roles. in_storage (Storage.delete (volumes E) roles);
    print_storage = λ roles. forget (in_storage (VolumeStatus.print_status (volumes E) roles));
    get_clusters_with_role = λ role.
        in_cloud
          (λ c. (Cluster.get_clusters_with_role role "running" (E.compute.get_all_instances c), c));
    create_formatted_snapshot = create_formatted_snapshot patience;
    get_storage_roles = in_storage (Storage.get_roles (volumes E));
  }
