-- ===== src/Cli/Perform.antt =====
-- The call of the service at the end of each command (hadoop/cloud/cli.py, hadoop/cloud/service.py).
use ec2_wrappers.Prelude.{ℕ, true, false, String, ◌<>◌, Option, none, some, []}
use ec2_wrappers.Prelude.{return, raise, exception, type_error, ◌>>=◌}
use ec2_wrappers.Prelude.{map}
use ec2_wrappers.Prelude.Text.{join}
use ec2_wrappers.Prelude.Number.{decimal}
use ec2_wrappers.Util.{Value, text, lines, flag, port}
use ec2_wrappers.Service.{Provider, Host, World, Action, on}
use ec2_wrappers.Service
use ec2_wrappers.Service.Hadoop
use ec2_wrappers.Service.Hadoop.{Polls}
use ec2_wrappers.Service.Hadoop.Launching
use ec2_wrappers.Service.Zookeeper.{ServiceClass, hadoop_service, zookeeper_service}
use ec2_wrappers.Cli.{Call}

-- `%s` of a value; a list of texts that need no escape.
unfoldable pub shown : Option Value → String
shown none = "None"
shown (some (text s)) = s
shown (some (port n)) = decimal n
shown (some (flag true)) = "True"
shown (some (flag false)) = "False"
shown (some (lines ss)) = "[" <> (join ", " (map (λ s. "'" <> (s <> "'")) ss) <> "]")

-- `xstr` of a value
unfoldable pub shown_or_empty : Option Value → String
shown_or_empty none = ""
shown_or_empty other = shown other

module _ (P : Provider) (H : Host) (fuel : ℕ) (polls : Polls) where
  abbrev unimplemented : Action P (Unit {0})
  unimplemented = raise (exception "Unimplemented")

  abbrev forget : {A : Type 0} → Action P A → Action P (Unit {0})
  forget m = m >>= λ _. return tt

  -- The methods that both services take from `Service`.
  unfoldable pub perform_any : Call → Action P (Unit {0})
  perform_any (Call.terminate_cluster force) = Service.terminate_cluster P H force
  perform_any Call.delete_cluster = Service.delete_cluster P H
  perform_any (Call.create_formatted_snapshot size zone image key options) =
      on P (P.create_formatted_snapshot size zone image key (shown_or_empty options))
  perform_any Call.list_storage = Service.list_storage P H
  perform_any (Call.create_storage role n zone spec_file) =
      Service.create_storage P H role n zone spec_file
  perform_any (Call.attach_storage role) = Service.attach_storage P H role
  perform_any (Call.delete_storage force) = Service.delete_storage P H force
  perform_any other = unimplemented

  -- What HadoopService does. Whether the fuel of the waiting was enough is not passed on.
  unfoldable pub perform_hadoop : Call → Action P (Unit {0})
  perform_hadoop Call.list_all = forget (Hadoop.list_all P H)
  perform_hadoop Call.list = on P (P.print_status [])
  perform_hadoop (Call.launch_master it config_dir cidr) =
      forget (Launching.launch_master P H fuel polls it config_dir cidr)
  perform_hadoop (Call.launch_slaves it) = Launching.launch_slaves P H it
  perform_hadoop (Call.launch_cluster its config_dir cidr proxy_port) =
      forget (Launching.launch_cluster P H fuel polls its config_dir cidr (shown proxy_port))
  perform_hadoop (Call.login options) = Hadoop.login P H (some (shown_or_empty options))
  perform_hadoop (Call.proxy options proxy_port) =
      Hadoop.proxy P H (some (shown_or_empty options)) (shown proxy_port)
  perform_hadoop (Call.push options file) = Hadoop.push P H (some (shown_or_empty options)) file
  perform_hadoop (Call.execute options args) =
      Hadoop.execute P H (some (shown_or_empty options)) args
  perform_hadoop (Call.update_slaves_file config_dir options key) =
      Launching.update_slaves_file P H config_dir (shown_or_empty options) (shown key)
  perform_hadoop other = perform_any other

  -- What ZooKeeperService does. Its `launch_cluster` takes no port.
  unfoldable pub perform_zookeeper : Call → Action P (Unit {0})
  perform_zookeeper (Call.launch_cluster its config_dir cidr proxy_port) = raise type_error
  perform_zookeeper other = perform_any other

  unfoldable pub perform : ServiceClass → Call → Action P (Unit {0})
  perform hadoop_service call = perform_hadoop call
  perform zookeeper_service call = perform_zookeeper call
