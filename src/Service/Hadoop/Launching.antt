-- ===== src/Service/Hadoop/Launching.antt =====
-- How HadoopService (hadoop/cloud/service.py) launches a cluster, its master and its slaves.
use ec2_wrappers.Prelude.{ℕ, Bool, true, false, String, ◌<>◌, Option, none, some, List, [], ◌∷◌}
use ec2_wrappers.Prelude.{
  map, Result, ok, raised, return, raise, lift, modify, for_each, ◌>>=◌, ◌>>◌,
}
use ec2_wrappers.Prelude.{or_raise, system_exit, timeout, string_eq}
use ec2_wrappers.Prelude.Text.{join, join_path}
use ec2_wrappers.Prelude.Dict.{insert}
use ec2_wrappers.Util.{Value}
use ec2_wrappers.Storage.{Instance, characters, concat}
use ec2_wrappers.Service.{
  Provider, Host, Action, on, shell, check_running, environ, first, launch_instances,
  InstanceTemplate, add_env_strings, host_env,
}
use ec2_wrappers.Service.Hadoop.{
  namenode, secondary_namenode, jobtracker, datanode, Polls, wait_for_hadoop,
  number_of_tasktrackers, get_first, address_of, launch_cluster_instances, authorize_client_ports,
  attach_all,
}

-- The file `hadoop-site.xml`.
unfoldable pub hadoop_site : String → String → String → String → String → String
hadoop_site nn jt proxy_port key_id secret = join "" (
    "<?xml version=\"1.0\"?>\n"
    ∷ "  <?xml-stylesheet type=\"text/xsl\" href=\"configuration.xsl\"?>\n"
    ∷ "  <!-- Put site-specific property overrides in this file. -->\n" ∷ "  <configuration>\n"
    ∷ "  <property>\n" ∷ "    <name>hadoop.job.ugi</name>\n" ∷ "    <value>root,root</value>\n"
    ∷ "  </property>\n" ∷ "  <property>\n" ∷ "    <name>fs.default.name</name>\n"
    ∷ "    <value>hdfs://" ∷ nn ∷ ":8020/</value>\n" ∷ "  </property>\n" ∷ "  <property>\n"
    ∷ "    <name>mapred.job.tracker</name>\n" ∷ "    <value>" ∷ jt ∷ ":8021</value>\n"
    ∷ "  </property>\n" ∷ "  <property>\n" ∷ "    <name>hadoop.socks.server</name>\n"
    ∷ "    <value>localhost:" ∷ proxy_port ∷ "</value>\n" ∷ "  </property>\n" ∷ "  <property>\n"
    ∷ "    <name>hadoop.rpc.socket.factory.class.default</name>\n"
    ∷ "    <value>org.apache.hadoop.net.SocksSocketFactory</value>\n" ∷ "  </property>\n"
    ∷ "  <property>\n" ∷ "    <name>fs.s3.awsAccessKeyId</name>\n" ∷ "    <value>" ∷ key_id
    ∷ "</value>\n" ∷ "  </property>\n" ∷ "  <property>\n"
    ∷ "    <name>fs.s3.awsSecretAccessKey</name>\n" ∷ "    <value>" ∷ secret ∷ "</value>\n"
    ∷ "  </property>\n" ∷ "  <property>\n" ∷ "    <name>fs.s3n.awsAccessKeyId</name>\n"
    ∷ "    <value>" ∷ key_id ∷ "</value>\n" ∷ "  </property>\n" ∷ "  <property>\n"
    ∷ "    <name>fs.s3n.awsSecretAccessKey</name>\n" ∷ "    <value>" ∷ secret ∷ "</value>\n"
    ∷ "  </property>\n" ∷ "  </configuration>\n" ∷ "  " ∷ [])

-- The roles of templates, in turn.
unfoldable pub roles_of : List InstanceTemplate → List String
roles_of its = concat (map (λ it. it.roles) its)

-- `instance_template.add_env_strings(x)` for three texts in turn: parentheses make no tuple, so each
-- text adds its characters.
unfoldable pub add_master : String → List String → InstanceTemplate → Result InstanceTemplate
add_master address [] it = ok it
add_master address (role ∷ roles) it =
    elim (add_env_strings (characters (host_env role address)) it) [
      | raised e ↦ raised e
      | ok full ↦ add_master address roles full
    ]

module _ (P : Provider) (H : Host) where
  abbrev write : String → String → Action P (Unit {0})
  write path content = modify (λ w. record w { files = insert path content w.files })

  -- The directory of the cluster is made where it is missing. Opening the file empties it.
  unfoldable pub create_client_hadoop_site_file : String → String → Action P (Unit {0})
  create_client_hadoop_site_file config_dir proxy_port = do
    nn ← get_first P H namenode
    jt ← get_first P H jobtracker
    key_id ← environ P H "AWS_ACCESS_KEY_ID"
    secret ← environ P H "AWS_SECRET_ACCESS_KEY"
    let path = join_path (join_path config_dir P.name) "hadoop-site.xml"
    write path ""
    nn_host ← address_of P H nn
    jt_host ← address_of P H jt
    write path (hadoop_site nn_host jt_host proxy_port key_id secret)

  -- The waiting on fuel: `false` where it ran out. A timeout is printed, and no more.
  unfoldable pub await_hadoop : ℕ → Polls → ℕ → Action P Bool
  await_hadoop fuel polls number = do
    jt ← get_first P H jobtracker
    elim jt [
      | none ↦ return true
      | some _ ↦ elim (wait_for_hadoop fuel polls number 600) [
        | none ↦ return false
        | some (ok _) ↦ return true
        | some (raised timeout) ↦ return true
        | some (raised e) ↦ raise e
      ]
    ]

  -- What `launch_cluster` does once the instances are there.
  unfoldable pub prepare_cluster :
      ℕ → Polls → List InstanceTemplate → String → Option Value → String → Action P Bool
  prepare_cluster fuel polls its config_dir client_cidr proxy_port = do
    create_client_hadoop_site_file config_dir proxy_port
    authorize_client_ports P H client_cidr
    attach_all P H (roles_of its)
    ended ← await_hadoop fuel polls (number_of_tasktrackers its)
    get_first P H jobtracker
    return ended

  unfoldable pub launch_cluster :
      ℕ → Polls → List InstanceTemplate → String → Option Value → String → Action P Bool
  launch_cluster fuel polls its config_dir client_cidr proxy_port = do
    launch_cluster_instances P H its []
    prepare_cluster fuel polls its config_dir client_cidr proxy_port

  -- Another master keeps it from launching.
  unfoldable pub launch_master :
      ℕ → Polls → InstanceTemplate → String → Option Value → Action P Bool
  launch_master fuel polls it config_dir client_cidr = do
    running ← check_running P namenode 0
    elim running [
      | none ↦ return true
      | some _ ↦ launch_cluster fuel polls (it ∷ []) config_dir client_cidr "6666"
    ]

  -- `attach_storage` of the roles comes with the master's address printed.
  unfoldable pub launch_slaves : InstanceTemplate → Action P (Unit {0})
  launch_slaves it = do
    running ← check_running P namenode 1
    elim running [
      | none ↦ return tt
      | some instances ↦ elim (first instances) [
        | none ↦ return tt
        | some master ↦ (do
          full ←
              lift
                (add_master master.public_ip (namenode ∷ secondary_namenode ∷ jobtracker ∷ []) it)
          launch_instances P H "hadoop" full
          attach_all P H it.roles
          get_first P H jobtracker
          return tt)
      ]
    ]

  -- The slaves of the file, one to a line.
  unfoldable pub slaves_file : List Instance → String
  slaves_file [] = ""
  slaves_file (i ∷ is) = i.public_ip <> ("\n" <> slaves_file is)

  abbrev scp : String → String → String → String → Action P (Unit {0})
  scp ssh_options file address path =
      shell P ("scp " <> (ssh_options <> (" -r " <> (file <> (" root@" <> (address <> path))))))

  unfoldable pub update_slaves_file : String → String → String → Action P (Unit {0})
  update_slaves_file config_dir ssh_options private_key = do
    running ← check_running P namenode 1
    instances ← or_raise running (system_exit 1)
    master ← or_raise (first instances) (system_exit 1)
    slaves ← on P (P.get_instances_in_role datanode)
    let path = join_path (join_path config_dir P.name) "slaves"
    write path (slaves_file slaves)
    scp ssh_options path master.public_ip ":/etc/hadoop/conf"
    scp ssh_options private_key master.public_ip ":/root/.ssh/id_rsa"
    for_each slaves (λ slave. scp ssh_options private_key slave.public_ip ":/root/.ssh/id_rsa")
