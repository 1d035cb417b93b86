-- ===== src/Service.antt =====
-- hadoop/cloud/service.py: the services that run on a cluster. `Provider` is what a service asks of a
-- cluster and its storage, and `Host` is the machine that the program runs on.
pub mod Hadoop
pub mod Zookeeper
pub mod Hosts
pub mod Slaves
pub mod Ports
pub mod Patience
pub mod Ready
pub mod UserData
pub mod Ec2
pub mod Dummy
pub mod Tests
mod Templates
unfoldable pub use Templates.*
use ec2_wrappers.Prelude.{
  ℕ, Bool, true, false, String, ◌<>◌, Option, none, some, List, [], ◌∷◌, ◌++◌,
}
use ec2_wrappers.Prelude.{
  Result, ok, raised, Exn, Exec, return, raise, raise_if, lift, gets, modify,
}
use ec2_wrappers.Prelude.{
  for_each, when, ◌>>=◌, ◌>>◌, or_raise, key_error, index_error, timeout, not,
}
use ec2_wrappers.Prelude.{◌||◌, length, string_eq, nat_eq, ◌==◌, if◌then◌else◌}
use ec2_wrappers.Prelude.Text.{join}
use ec2_wrappers.Prelude.Number.{lower}
use ec2_wrappers.Prelude.Dict.{Dict}
use ec2_wrappers.Util.{Value, text, build_env_string}
use ec2_wrappers.Storage.{Instance, characters}
use Templates.{InstanceTemplate, strings_of, env_text}

-- The arguments of `launch_instances` of a cluster, with the file of the user data and the text that
-- stands for `%ENV%` in it.
pub record Order : Type 0 where
  pub roles : List String
  pub number : ℕ
  pub image_id : Option Value
  pub size_id : Option Value
  pub user_data_file : Value
  pub env : String
  pub key_name : Option Value
  pub public_key : Option Value
  pub placement : Option Value

-- A cluster with its storage. Every instance that a service asks for is to be running.
pub record Provider : Type 1 where
  pub World : Type 0
  pub name : String
  pub provider_code : String
  pub print_status : List String → Exec World (Unit {0})
  pub get_instances_in_role : String → Exec World (List Instance)
  pub launch_instances : Order → Exec World (List String)
  pub wait_for_instances : List String → Exec World (Unit {0})
  pub authorize_role : String → ℕ → ℕ → String → Exec World (Unit {0})
  pub terminate : Exec World (Unit {0})
  pub delete : Exec World (Unit {0})
  pub has_any_storage : List String → Exec World Bool
  pub get_mappings_string_for_role : String → Exec World String
  pub attach : String → List Instance → Exec World (Unit {0})
  pub create_storage : String → ℕ → Option Value → String → Exec World (Unit {0})
  pub delete_storage : List String → Exec World (Unit {0})
  -- of the given roles, or of all
  pub print_storage : Option (List String) → Exec World (Unit {0})
  pub get_clusters_with_role : String → Exec World (List String)
  pub create_formatted_snapshot :
      ℕ → Option Value → String → Option Value → String → Exec World (Unit {0})
  pub get_storage_roles : Exec World (List String)

-- The environment, the answers of the user, the names of hosts, and the address that
-- checkip.amazonaws.com reports.
pub record Host : Type 0 where
  pub environ : String → Option String
  pub raw_input : String → String
  pub gethostbyname : String → Result String
  pub own_address : Result String
  -- what stands in front of `data/` in the path of a script
  pub directory : String

-- `try: body` with `except TimeoutException`, which gives nothing.
unfoldable pub unless_timeout : {S A : Type 0} → Exec S A → Exec S (Option A)
unless_timeout body s =
    let (r, t) = body s in
    elim r [
      | ok a ↦ (ok (some a), t)
      | raised e ↦ elim e [ timeout ↦ (ok none, t) | other ↦ (raised other, t) ]
    ]

unfoldable pub first {ℓ} : {A : Type ℓ} → List A → Option A
first [] = none
first (x ∷ xs) = some x

module _ (P : Provider) where
  -- The cluster, the files that the program writes, and the commands that it has a shell run.
  pub record World : Type 0 where
    pub cluster : P.World
    pub files : Dict String String
    pub calls : List String

  abbrev pub Action : Type 0 → Type 0
  Action A = Exec World A

  abbrev pub on : {A : Type 0} → Exec P.World A → Action A
  on m w = let (r, c) = m w.cluster in (r, record w { cluster = c })

  -- `subprocess.call(command, shell=True)`, whose status nothing reads
  abbrev pub shell : String → Action (Unit {0})
  shell command = modify (λ w. record w { calls = w.calls ++ (command ∷ []) })

  -- `check_running` of hadoop/cloud/cluster.py; `none` is `False`
  unfoldable pub check_running : String → ℕ → Action (Option (List Instance))
  check_running role number = do
    instances ← on (P.get_instances_in_role role)
    return (if length instances == number then some instances else none)

module _ (P : Provider) (H : Host) where
  unfoldable pub prompt : String → Bool
  prompt question = lower (H.raw_input (question <> " [yes or no]: ")) == "yes"

  unfoldable pub terminate_cluster : Bool → Action P (Unit {0})
  terminate_cluster force = do
    on P (P.print_status [])
    when (force || prompt "Terminate all instances?") (on P P.terminate)

  unfoldable pub delete_cluster : Action P (Unit {0})
  delete_cluster = on P P.delete

  unfoldable pub create_storage : String → ℕ → Option Value → String → Action P (Unit {0})
  create_storage role number zone spec_file = do
    on P (P.create_storage role number zone spec_file)
    on P (P.print_storage none)

  unfoldable pub list_storage : Action P (Unit {0})
  list_storage = on P (P.print_storage none)

  unfoldable pub attach_storage : String → Action P (Unit {0})
  attach_storage role = do
    instances ← on P (P.get_instances_in_role role)
    on P (P.attach role instances)
    on P (P.print_storage none)

  -- `delete` takes a list of roles and is given one role.
  unfoldable pub delete_storage : Bool → Action P (Unit {0})
  delete_storage force = do
    on P (P.print_storage none)
    when (force || prompt "Delete all storage volumes? THIS WILL       PERMANENTLY DELETE ALL DATA")
        (do
          roles ← on P P.get_storage_roles
          for_each roles (λ role. on P (P.delete_storage (characters role))))

  -- The loop over the roles: the mappings of the last role that has storage.
  unfoldable pub ebs_mappings : List String → String → Action P String
  ebs_mappings [] mappings = return mappings
  ebs_mappings (role ∷ roles) mappings = do
    has ← on P (P.has_any_storage (role ∷ []))
    found ← elim has [ true ↦ on P (P.get_mappings_string_for_role role) | false ↦ return mappings ]
    ebs_mappings roles found

  -- `os.environ[name]`
  abbrev pub environ : String → Action P String
  environ name = or_raise (H.environ name) (key_error name)

  -- The script of the service, where the template names none.
  unfoldable pub script_of : String → Option Value → Value
  script_of service_code none = text (
      H.directory
      <> ("/data/" <> (service_code <> ("-" <> (P.provider_code <> "-init-remote.sh")))))
  script_of service_code (some file) = file

  -- The arguments of the launch for a template and the text for `%ENV%`.
  abbrev pub order_of : String → InstanceTemplate → String → Order
  order_of service_code it env = record {
    roles = it.roles;
    number = it.number;
    image_id = it.image_id;
    size_id = it.size_id;
    user_data_file = script_of service_code it.user_data_file_template;
    env = env;
    key_name = it.key_name;
    public_key = it.public_key;
    placement = it.placement;
  }

  -- The part of `_launch_instances` behind the text for `%ENV%`; `none` where the wait timed out.
  unfoldable pub start_instances :
      String → InstanceTemplate → String → Action P (Option (List Instance))
  start_instances service_code it env = do
    ids ← on P (P.launch_instances (order_of service_code it env))
    started ← on P (unless_timeout (P.wait_for_instances ids))
    elim started [
      | none ↦ return none
      | some _ ↦ (do
        role ← or_raise (first it.roles) index_error
        on P (P.print_status (characters role))
        instances ← on P (P.get_instances_in_role role)
        return (some instances))
    ]

  -- `_launch_instances`
  unfoldable pub launch_instances : String → InstanceTemplate → Action P (Option (List Instance))
  launch_instances service_code it = do
    mappings ← ebs_mappings it.roles ""
    key_id ← environ "AWS_ACCESS_KEY_ID"
    secret ← environ "AWS_SECRET_ACCESS_KEY"
    env ← lift (env_text it key_id secret mappings)
    start_instances service_code it env
