-- ===== src/Service/Zookeeper.antt =====
-- ZooKeeperService of hadoop/cloud/service.py, and the choice of a service.
use ec2_wrappers.Prelude.{ℕ, suc, String, ◌<>◌, Option, List, [], ◌∷◌}
use ec2_wrappers.Prelude.{Result, ok, raised, return, raise, modify, for_each, ◌>>=◌, ◌>>◌}
use ec2_wrappers.Prelude.{
  or_raise, gets, raise_if, not, os_error, type_error, index_error, key_error, string_eq, ◌==◌,
  if◌then◌else◌,
}
use ec2_wrappers.Prelude.Text.{join, drop_last}
use ec2_wrappers.Prelude.Number.{decimal}
use ec2_wrappers.Prelude.Dict.{insert, erase, has_key}
use ec2_wrappers.Util.{Value}
use ec2_wrappers.Storage.{Instance}
use ec2_wrappers.Service.{
  Provider, Host, Action, on, shell, launch_instances, InstanceTemplate, first,
}
use ec2_wrappers.Service.Hadoop.{client_networks}

abbrev pub zookeeper_role : String
zookeeper_role = "zk"

-- `zoo.cfg` up to the servers
unfoldable pub zoo_head : String
zoo_head = join "" (
    "# The number of milliseconds of each tick\n" ∷ "tickTime=2000\n"
    ∷ "# The number of ticks that the initial\n" ∷ "# synchronization phase can take\n"
    ∷ "initLimit=10\n" ∷ "# The number of ticks that can pass between\n"
    ∷ "# sending a request and getting an acknowledgement\n" ∷ "syncLimit=5\n"
    ∷ "# The directory where the snapshot is stored.\n" ∷ "dataDir=/var/log/zookeeper/txlog\n"
    ∷ "# The port at which the clients will connect\n" ∷ "clientPort=2181\n"
    ∷ "# The servers in the ensemble\n" ∷ [])

-- The lines of the servers, numbered from `counter`.
unfoldable pub server_lines : ℕ → List Instance → String
server_lines counter [] = ""
server_lines counter (i ∷ is) =
    "server."
    <> (decimal counter
        <> ("=" <> (i.private_ip <> (":2888:3888\n" <> server_lines (suc counter) is))))

-- The name of the class of a service; SERVICE_PROVIDER_MAP has no provider for either service.
pub data ServiceClass : Type 0 where
  hadoop_service zookeeper_service : ServiceClass

unfoldable pub get_service : String → String → Result ServiceClass
get_service service provider =
    if service == "hadoop"
    then ok hadoop_service
    else if service == "zookeeper"
    then ok zookeeper_service
    else raised (key_error service)

module _ (P : Provider) (H : Host) where
  unfoldable pub launch_each : List InstanceTemplate → Action P (Unit {0})
  launch_each its = for_each its (λ it. do launch_instances P H "zookeeper" it; return tt)

  unfoldable pub authorize_clients : Option Value → Action P (Unit {0})
  authorize_clients client_cidrs = do
    networks ← client_networks P H client_cidrs
    for_each networks (λ network. on P (P.authorize_role zookeeper_role 2181 2181 network))

  -- `_update_cluster_membership` takes one key and is given two.
  unfoldable pub launch_cluster : List InstanceTemplate → Option Value → Action P (Unit {0})
  launch_cluster its client_cidr = do
    launch_each its
    authorize_clients client_cidr
    or_raise (first its) index_error
    raise type_error

  abbrev write : String → String → Action P (Unit {0})
  write path content = modify (λ w. record w { files = insert path content w.files })

  abbrev copy : String → String → String → String → Action P (Unit {0})
  copy private_key file address path = shell P (
      "scp -i "
      <> (private_key
          <> (" -o StrictHostKeyChecking=no "
              <> (file <> (" root@" <> (address <> (":" <> path)))))))

  -- Each server gets the file of all servers and its own number.
  unfoldable pub copy_each : String → ℕ → List Instance → Action P (Unit {0})
  copy_each private_key counter [] = return tt
  copy_each private_key counter (i ∷ is) = do
    copy private_key "zoo.cfg" i.public_ip "/etc/zookeeper/conf/zoo.cfg"
    write "myid" (decimal counter <> "\n")
    copy private_key "myid" i.public_ip "/var/log/zookeeper/txlog/myid"
    copy_each private_key (suc counter) is

  -- `os.remove(path)`; ENOENT is 2.
  unfoldable pub remove : String → Action P (Unit {0})
  remove path = do
    there ← gets (λ w. has_key path w.files)
    raise_if (not there) (os_error 2)
    modify (λ w. record w { files = erase path w.files })

  -- `_update_cluster_membership`
  unfoldable pub update_cluster_membership : String → Action P (Unit {0})
  update_cluster_membership public_key = do
    let private_key = drop_last (drop_last (drop_last (drop_last public_key)))
    instances ← on P (P.get_instances_in_role zookeeper_role)
    write "zoo.cfg" (zoo_head <> server_lines 1 instances)
    copy_each private_key 1 instances
    remove "zoo.cfg"
    remove "myid"
    for_each instances (λ i. shell P (
        "ssh -i "
        <> (private_key
            <> (" -o StrictHostKeyChecking=no root@"
                <> (i.public_ip <> " nohup /etc/rc.local &")))))
