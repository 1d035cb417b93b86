-- ===== src/Cli/Tests.antt =====
-- Command lines (hadoop/cloud/cli.py).
use ec2_wrappers.Prelude.{String, none, some, List, [], ◌∷◌, ok, refl, All, string_eq}
use ec2_wrappers.Prelude.Dict.{Dict}
use ec2_wrappers.Util.{Value, text, lines}
use ec2_wrappers.Service.{InstanceTemplate}
use ec2_wrappers.Service.Tests.{provider, machine_of_user, polls}
use ec2_wrappers.Prelude.{nat_eq, char_eq}
use ec2_wrappers.Prelude.Text.{split, join_path, starts_with, ends_with}
use ec2_wrappers.Prelude.Number.{to_int}
use ec2_wrappers.Util.{merge_config_with_options}
use ec2_wrappers.Service.Zookeeper.{hadoop_service, get_service}
use ec2_wrappers.Service.Hadoop.Launching.{launch_cluster}
use ec2_wrappers.Cli.{
  Call, Plan, Console, cluster_templates, shifted_template, parse_options, config_files,
  get_cloud_provider, get_service_name, get_cluster, check_launch_options_set, check_options_set,
  pairs_of, get_config_dir, number,
}
use ec2_wrappers.Cli.Commands.{commands, plan_launch_cluster, parse_options_and_config}
use ec2_wrappers.Cli.Commands.{plan}
use ec2_wrappers.Cli.Ready.{IsReady}
use ec2_wrappers.Cli.Keyed.{plan-IsReady}
use ec2_wrappers.Prelude.Runs.{Runs-lift, Anything, Holds}
use ec2_wrappers.Prelude.{false, ◌≡◌}
use ec2_wrappers.Prelude.Number.{lower}
use ec2_wrappers.Service.{World}
use ec2_wrappers.Service.Zookeeper.{zookeeper_service}
use ec2_wrappers.Cli.Perform.{perform}
use ec2_wrappers.Cli.Confirmed.{perform-unconfirmed}
use ec2_wrappers.Prelude.{raised, true}
use ec2_wrappers.Cluster.{instances_of}
use ec2_wrappers.Service.Ec2.{provider_of}
use ec2_wrappers.Service.Ec2.Tests.{account, blank}
use ec2_wrappers.Cli.Cloud.{running_in, is_reported, perform-terminate, perform-delete_storage}
use ec2_wrappers.Cluster.Members.{ids}
use ec2_wrappers.Prelude.{Exn, contains}
use ec2_wrappers.Cli.Shifted.{IsShifted, Nothing, launch_cluster-env}

-- No options on the command line, and a configuration with all that a launch needs.
abbrev console : Console
console = record {
  parse_args = λ command words. ok (record { options = []; args = words });
  config_section = λ files name.
      some (("cloud_provider", "ec2") ∷ ("image_id", "ami-1") ∷ ("key_name", "me") ∷ []);
  home = "/home/me";
}

abbrev argv : List String
argv = "hadoop-ec2" ∷ "launch-cluster" ∷ "c" ∷ "1" ∷ "nn,snn,jt" ∷ "2" ∷ "dn,tt" ∷ []

abbrev options : Dict String Value
options = ("cloud_provider", text "ec2") ∷ ("image_id", text "ami-1") ∷ ("key_name", text "me") ∷ []

abbrev templates : List InstanceTemplate
templates =
    shifted_template "ec2" options ("nn" ∷ "snn" ∷ "jt" ∷ []) 1
    ∷ shifted_template "ec2" options ("dn" ∷ "tt" ∷ []) 2
    ∷ []

abbrev launch : Plan
launch = record {
  service = hadoop_service;
  provider = "ec2";
  cluster = some "c";
  call = Call.launch_cluster templates "/home/me/.hadoop-cloud" none none;
}

plan-IsReady_example : All (IsReady "ec2") templates × Unit {0}
unfolding plan commands plan_launch_cluster parse_options_and_config parse_options config_files
    get_cloud_provider get_service_name get_service get_cluster check_launch_options_set
    check_options_set cluster_templates pairs_of split to_int get_config_dir join_path string_eq
    nat_eq char_eq merge_config_with_options starts_with ends_with
plan-IsReady_example = plan-IsReady console argv launch refl refl

abbrev with_env : Dict String Value
with_env = ("env", lines ("A=1" ∷ [])) ∷ options

abbrev env_templates : List InstanceTemplate
env_templates =
    shifted_template "ec2" with_env ("nn" ∷ "snn" ∷ "jt" ∷ []) 1
    ∷ shifted_template "ec2" with_env ("dn" ∷ "tt" ∷ []) 2
    ∷ []

launch_cluster-env_example :
    All (IsShifted with_env) env_templates
    × ((w : World provider)
        → w.cluster ≡ []
        → ((launch_cluster provider machine_of_user 601 polls env_templates "." none "6666"
              w).1.cluster
            ≡ [])
          × Holds Nothing
              (launch_cluster provider machine_of_user 601 polls env_templates "." none "6666" w).0)
unfolding cluster_templates number to_int string_eq nat_eq char_eq
launch_cluster-env_example =
    launch_cluster-env provider machine_of_user (λ ms. ms ≡ [])
      (λ roles. Runs-lift _ Anything (ok false) tt) (λ role. Runs-lift _ Anything (ok "") tt) "ec2"
      with_env ("c" ∷ "2" ∷ []) (shifted_template "ec2" with_env ("nn" ∷ "snn" ∷ "jt" ∷ []) 1)
      (shifted_template "ec2" with_env ("dn" ∷ "tt" ∷ []) 2 ∷ []) ("A=1" ∷ []) 601 polls "." none
      "6666" refl refl

abbrev empty : World provider
empty = record { cluster = []; files = []; calls = [] }

perform-unconfirmed_example :
    (perform provider machine_of_user 601 polls zookeeper_service
        (Call.terminate_cluster false)
        empty
      ≡ (ok tt, empty))
    × (perform provider machine_of_user 601 polls zookeeper_service
          (Call.delete_storage false)
          empty
        ≡ (ok tt, empty))
unfolding lower string_eq char_eq
perform-unconfirmed_example =
    perform-unconfirmed provider machine_of_user 601 polls (λ question. refl) zookeeper_service
      empty

-- A cluster of EC2 with storage in a role of two letters, and a volume that is none of its own.
abbrev shared : World (provider_of account 601 "c")
shared = record {
  cluster = record {
    storage = record { cloud = ([], [], blank ∷ []); file = some (("dn", []) ∷ []) };
    commands = [];
  };
  files = [];
  calls = [];
}

perform-terminate_example :
    (perform
        (provider_of account 601 "c")
        machine_of_user
        601
        polls
        hadoop_service
        (Call.terminate_cluster true)
        shared
      ≡ (ok tt, shared))
    × ((id : String)
        → contains (ids (running_in account 601 "c" machine_of_user 601 polls shared)) id
          ≡ is_reported account 601 "c" machine_of_user 601 polls "c" id [])
unfolding instances_of
perform-terminate_example =
    perform-terminate account 601 "c" machine_of_user 601 polls hadoop_service shared

-- The same with a volume on record.
abbrev recorded : World (provider_of account 601 "c")
recorded = record shared {
  cluster = record shared.cluster {
    storage = record shared.cluster.storage {
      file = some (
          (
            "dn",
            (record { volume_id = "v-9"; mount_point = "/data"; device = "/dev/sdj" } ∷ []) ∷ [],
          )
          ∷ []);
    };
  };
}

perform-delete_storage_example :
    (e : Exn) × (perform
        (provider_of account 601 "c")
        machine_of_user
        601
        polls
        hadoop_service
        (Call.delete_storage true)
        recorded
      ≡ (raised e, recorded))
unfolding string_eq
perform-delete_storage_example =
    perform-delete_storage account 601 "c" machine_of_user 601 polls hadoop_service recorded refl
