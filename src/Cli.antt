-- ===== src/Cli.antt =====
-- hadoop/cloud/cli.py: from the words of a command line to the call of a service. What optparse and
-- ConfigParser make of their input comes in as arguments.
pub mod Commands
pub mod Perform
pub mod Confirmed
pub mod Cloud
mod Tests
pub mod Shifted
pub mod Keyed
pub mod Ready
mod Calls
unfoldable pub use Calls.*
use ec2_wrappers.Prelude.{
  ℕ, zero, suc, ◌/◌, ◌%◌, Bool, true, false, String, ◌<>◌, Option, none, some, List,
}
use ec2_wrappers.Prelude.{
  [], ◌∷◌, ◌++◌, Result, ok, raised, Exn, system_exit, value_error, index_error,
}
use ec2_wrappers.Prelude.{
  import_error, key_error, length, ltb, not, ◌&&◌, ◌||◌, contains, string_eq, nat_eq, ◌==◌,
}
use ec2_wrappers.Prelude.{if◌then◌else◌, get_elem?}
use ec2_wrappers.Prelude.Text.{split, join_path}
use ec2_wrappers.Prelude.Number.{to_int}
use ec2_wrappers.Prelude.Dict.{Dict, lookup, has_key}
use ec2_wrappers.Util.{Value, text, lines, flag, port, merge_config_with_options, xstr}
use ec2_wrappers.Service.{InstanceTemplate}
use ec2_wrappers.Service.Hadoop.{namenode, secondary_namenode, jobtracker, datanode, tasktracker}
use ec2_wrappers.Service.Zookeeper.{ServiceClass, get_service}
use Calls.{Call, Plan, Parsed, Console, Flow, word, number, truthy, ◌>>=◌, ◌>>◌}

abbrev is_none {ℓ} : {A : Type ℓ} → Option A → Bool
is_none none = true
is_none (some a) = false

-- CLUSTER_PROVIDER_MAP; there is no module of the provider for rackspace.
unfoldable pub get_cluster : String → Result (Unit {0})
get_cluster provider =
    if contains ("dummy" ∷ "ec2" ∷ "cs61cec2" ∷ []) provider
    then ok tt
    else if provider == "rackspace"
    then raised import_error
    else raised (key_error provider)

-- `vars(options).get(name)`
abbrev pub option : String → Dict String (Option Value) → Option Value
option name options = elim (lookup name options) [ none ↦ none | some v ↦ v ]

-- `get_config_dir`, `get_service_name` and `get_cloud_provider`, whose values are texts
unfoldable pub get_config_dir : Console → Option Value → String
get_config_dir C (some (text s)) = if s == "" then join_path C.home ".hadoop-cloud" else s
get_config_dir C other = join_path C.home ".hadoop-cloud"

unfoldable pub get_service_name : Option Value → String
get_service_name (some (text s)) = s
get_service_name other = "hadoop"

unfoldable pub get_cloud_provider : Option Value → String
get_cloud_provider (some (text s)) = s
get_cloud_provider other = "cs61cec2"

-- `parse_options`, where `parser.error` exits with status 2
unfoldable pub parse_options : Console → String → List String → ℕ → Bool → Result Parsed
parse_options C command words expected unbounded = elim (C.parse_args command words) [
  | raised e ↦ raised e
  | ok parsed ↦
      let few = ltb (length parsed.args) expected in
      let wrong = if unbounded then few else not (length parsed.args == expected) in
      if wrong then raised (system_exit 2) else ok parsed
]

-- The files that are read: the current directory is searched only where no option has the name
-- `config_dir`.
unfoldable pub config_files : Console → Dict String (Option Value) → List String
config_files C options =
    let own = join_path (get_config_dir C (option "config_dir" options)) "clusters.cfg" in
    if not (has_key "config_dir" options) then "clusters.cfg" ∷ own ∷ [] else own ∷ []

-- `check_options_set`
unfoldable pub check_options_set : Dict String Value → List String → Result (Unit {0})
check_options_set opt [] = ok tt
check_options_set opt (name ∷ names) =
    let rest = check_options_set opt names in
    if is_none (lookup name opt) then raised (system_exit 1) else rest

-- The provider code of a cluster is the name under which the provider is chosen.
abbrev is_ec2 : String → Bool
is_ec2 provider = provider == "ec2" || provider == "cs61cec2"

unfoldable pub check_launch_options_set : String → Dict String Value → Result (Unit {0})
check_launch_options_set provider opt =
    if is_ec2 provider
    then (if is_none (lookup "ami" opt) && is_none (lookup "image_id" opt)
        then raised (system_exit 1)
        else check_options_set opt ("key_name" ∷ []))
    else check_options_set opt ("image_id" ∷ "public_key" ∷ [])

unfoldable pub get_image_id : String → Dict String Value → Option Value
get_image_id provider opt =
    if provider == "ec2"
    then elim (lookup "image_id" opt) [ some v ↦ some v | none ↦ lookup "ami" opt ]
    else lookup "image_id" opt

-- The template of `launch-master` and `launch-slaves`.
unfoldable pub template : String → Dict String Value → List String → ℕ → InstanceTemplate
template provider opt roles number = record {
  roles = roles;
  number = number;
  image_id = get_image_id provider opt;
  size_id = lookup "instance_type" opt;
  key_name = lookup "key_name" opt;
  public_key = lookup "public_key" opt;
  private_key = lookup "private_key" opt;
  user_data_file_template = lookup "user_data_file" opt;
  placement = lookup "availability_zone" opt;
  user_packages = lookup "user_packages" opt;
  auto_shutdown = lookup "auto_shutdown" opt;
  env_strings = lookup "env" opt;
  security_groups = lookup "security_group" opt;
}

-- The template of `launch-cluster`: the private key is left out, so that every later argument stands
-- one place too early, and the default of the last one is the empty list.
unfoldable pub shifted_template : String → Dict String Value → List String → ℕ → InstanceTemplate
shifted_template provider opt roles number = record {
  roles = roles;
  number = number;
  image_id = get_image_id provider opt;
  size_id = lookup "instance_type" opt;
  key_name = lookup "key_name" opt;
  public_key = lookup "public_key" opt;
  private_key = lookup "user_data_file" opt;
  user_data_file_template = lookup "availability_zone" opt;
  placement = lookup "user_packages" opt;
  user_packages = lookup "auto_shutdown" opt;
  auto_shutdown = lookup "env" opt;
  env_strings = lookup "security_group" opt;
  security_groups = some (lines []);
}

abbrev pub master_roles : List String
master_roles = namenode ∷ secondary_namenode ∷ jobtracker ∷ []

abbrev pub slave_roles : List String
slave_roles = datanode ∷ tasktracker ∷ []

-- The pairs of a number and roles behind the name of the cluster.
unfoldable pub pairs_of : List String → Result (List (ℕ × List String))
pairs_of [] = ok []
pairs_of (n ∷ []) = raised index_error
pairs_of (n ∷ roles ∷ rest) = elim (to_int n) [
  | none ↦ raised value_error
  | some count ↦ elim (pairs_of rest) [
    | raised e ↦ raised e
    | ok pairs ↦ ok ((count, split "," roles) ∷ pairs)
  ]
]

abbrev pub templates_of :
    String → Dict String Value → List (ℕ × List String) → List InstanceTemplate
templates_of provider opt [] = []
templates_of provider opt ((n, roles) ∷ pairs) =
    shifted_template provider opt roles n ∷ templates_of provider opt pairs

-- A template for each pair.
abbrev pub paired : String → Dict String Value → List String → Result (List InstanceTemplate)
paired provider opt [] = ok []
paired provider opt (cluster ∷ rest) = elim (pairs_of rest) [
  | raised e ↦ raised e
  | ok pairs ↦ ok (templates_of provider opt pairs)
]

-- The templates of `launch-cluster`, from all arguments.
unfoldable pub cluster_templates :
    String → Dict String Value → List String → Result (List InstanceTemplate)
cluster_templates provider opt args =
    if length args == 2
    then elim (number args 1) [
      | raised e ↦ raised e
      | ok n ↦ ok (
          shifted_template provider opt master_roles 1
          ∷ shifted_template provider opt slave_roles n
          ∷ [])
    ]
    else if ltb 2 (length args) && (length args % 2 == 0)
    then raised (system_exit 1)
    else paired provider opt args
