-- ===== src/Service/Hadoop.antt =====
-- HadoopService of hadoop/cloud/service.py.
pub mod Launching
use ec2_wrappers.Prelude.{
  ℕ, zero, suc, ◌+◌, ◌-◌, Bool, true, false, String, ◌<>◌, Option, none, some, List,
}
use ec2_wrappers.Prelude.{
  [], ◌∷◌, ◌++◌, map, Result, ok, raised, Exn, return, raise, lift, modify, for_each,
}
use ec2_wrappers.Prelude.{
  when, ◌>>=◌, ◌>>◌, or_raise, attribute_error, type_error, timeout, system_exit,
}
use ec2_wrappers.Prelude.{
  length, contains, is_empty, not, ltb, leb, string_eq, nat_eq, ◌==◌, if◌then◌else◌,
}
use ec2_wrappers.Prelude.Text.{join}
use ec2_wrappers.Prelude.Number.{decimal}
use ec2_wrappers.Prelude.Dict.{insert}
use ec2_wrappers.Util.{Value, xstr}
use ec2_wrappers.Storage.{Instance, characters, concat}
use ec2_wrappers.Service.{
  Provider, Host, Action, World, on, shell, check_running, environ, first, launch_instances,
  unless_timeout, InstanceTemplate, add_env_strings, host_env, strings_of,
}

abbrev pub namenode : String
namenode = "nn"

abbrev pub secondary_namenode : String
secondary_namenode = "snn"

abbrev pub jobtracker : String
jobtracker = "jt"

abbrev pub datanode : String
datanode = "dn"

abbrev pub tasktracker : String
tasktracker = "tt"

-- `except IOError`, which URLError is too
unfoldable pub is_io_error : Exn → Bool
is_io_error Exn.io_error = true
is_io_error Exn.url_error = true
is_io_error other = false

-- The clock and the answers of the jobtracker, in the n-th turn of a loop that waits.
pub record Polls : Type 0 where
  pub clock : ℕ → ℕ
  pub tasktrackers : ℕ → Result ℕ

-- The loops of `_wait_for_hadoop`, on fuel, from turn `n` on; `none` where the fuel ran out. The first
-- gives the turn in which the jobtracker answers, and its answer.
unfoldable pub wait_jobtracker : ℕ → Polls → ℕ → ℕ → ℕ → Option (Result (ℕ × ℕ))
wait_jobtracker zero polls start limit n = none
wait_jobtracker (suc fuel) polls start limit n =
    let again = wait_jobtracker fuel polls start limit (suc n) in
    if leb limit (polls.clock n - start)
    then some (raised timeout)
    else elim (polls.tasktrackers n) [
      | ok running ↦ some (ok (n, running))
      | raised e ↦ if is_io_error e then again else some (raised e)
    ]

unfoldable pub wait_tasktrackers : ℕ → Polls → ℕ → ℕ → ℕ → ℕ → ℕ → Option (Result (Unit {0}))
wait_tasktrackers zero polls start limit number n running = none
wait_tasktrackers (suc fuel) polls start limit number n running =
    let same = wait_tasktrackers fuel polls start limit number (suc n) running in
    if not (ltb running number)
    then some (ok tt)
    else if leb limit (polls.clock n - start)
    then some (raised timeout)
    else elim (polls.tasktrackers n) [
      | ok actual ↦ wait_tasktrackers fuel polls start limit number (suc n) actual
      | raised e ↦ if is_io_error e then same else some (raised e)
    ]

-- `_wait_for_hadoop`, where there is a jobtracker. It starts at `clock 0`.
unfoldable pub wait_for_hadoop : ℕ → Polls → ℕ → ℕ → Option (Result (Unit {0}))
wait_for_hadoop fuel polls number limit =
    elim (wait_jobtracker fuel polls (polls.clock 0) limit 1) [
      | none ↦ none
      | some (raised e) ↦ some (raised e)
      | some (ok (n, running)) ↦
          wait_tasktrackers fuel polls (polls.clock 0) limit number (suc n) running
    ]

-- The tasktrackers of the templates.
unfoldable pub number_of_tasktrackers : List InstanceTemplate → ℕ
number_of_tasktrackers [] = 0
number_of_tasktrackers (it ∷ its) =
    let rest = number_of_tasktrackers its in
    if contains it.roles tasktracker then it.number + rest else rest

-- What a template of one instance adds to the environment of those after it.
unfoldable pub hosts_of : InstanceTemplate → Option (List Instance) → Result (List String)
hosts_of it none = if it.number == 1 then raised type_error else ok []
hosts_of it (some []) = ok []
hosts_of it (some (i ∷ [])) =
    ok (if it.number == 1 then map (λ role. host_env role i.public_ip) it.roles else [])
hosts_of it (some (i ∷ j ∷ is)) = ok []

-- `not client_cidrs`
unfoldable pub lacking : Option Value → Bool
lacking none = true
lacking (some (Value.text s)) = s == ""
lacking (some (Value.lines ss)) = is_empty ss
lacking (some (Value.flag b)) = not b
lacking (some (Value.port n)) = n == 0

module _ (P : Provider) (H : Host) where
  -- `_get_namenode` and `_get_jobtracker`
  unfoldable pub get_first : String → Action P (Option Instance)
  get_first role = do instances ← on P (P.get_instances_in_role role); return (first instances)

  -- `x.public_ip`, which `None` does not have
  abbrev pub address_of : Option Instance → Action P String
  address_of none = raise attribute_error
  address_of (some i) = return i.public_ip

  unfoldable pub launch_cluster_instances :
      List InstanceTemplate → List String → Action P (Unit {0})
  launch_cluster_instances [] singleton_hosts = return tt
  launch_cluster_instances (it ∷ its) singleton_hosts = do
    full ← lift (add_env_strings singleton_hosts it)
    instances ← launch_instances P H "hadoop" full
    more ← lift (hosts_of it instances)
    launch_cluster_instances its (singleton_hosts ++ more)

  -- The networks of the clients, or the own address.
  unfoldable pub client_networks : Option Value → Action P (List String)
  client_networks cidrs = elim (lacking cidrs) [
    | true ↦ (do own ← lift H.own_address; return ((own <> "/32") ∷ []))
    | false ↦ lift (elim cidrs [ none ↦ raised type_error | some v ↦ strings_of v ])
  ]

  abbrev authorize : String → ℕ → String → Action P (Unit {0})
  authorize role number network = on P (P.authorize_role role number number network)

  unfoldable pub authorize_client : String → Action P (Unit {0})
  authorize_client network = do
    authorize namenode 80 network
    authorize jobtracker 50030 network
    authorize namenode 50070 network
    authorize tasktracker 50060 network
    authorize datanode 50075 network

  unfoldable pub authorize_client_ports : Option Value → Action P (Unit {0})
  authorize_client_ports client_cidrs = do
    networks ← client_networks client_cidrs
    nn ← get_first namenode
    jt ← get_first jobtracker
    for_each networks authorize_client
    nn_host ← address_of nn
    nn_ip ← lift (H.gethostbyname nn_host)
    jt_host ← address_of jt
    jt_ip ← lift (H.gethostbyname jt_host)
    authorize namenode 8020 (nn_ip <> "/32")
    authorize namenode 8020 (jt_ip <> "/32")
    authorize jobtracker 8021 (nn_ip <> "/32")
    authorize jobtracker 8021 (jt_ip <> "/32")

  unfoldable pub attach_roles : List String → Action P (Unit {0})
  attach_roles roles =
      for_each roles
        (λ role. do instances ← on P (P.get_instances_in_role role); on P (P.attach role instances))

  -- `_attach_storage`
  unfoldable pub attach_all : List String → Action P (Unit {0})
  attach_all roles = do
    has ← on P (P.has_any_storage roles)
    when has (do attach_roles roles; on P (P.print_storage (some roles)))

  -- `login`, `push` and `execute` run a command that names the address of the master.
  unfoldable pub with_master : (Instance → String) → Action P (Unit {0})
  with_master command = do
    master ← get_first namenode
    found ← or_raise master (system_exit 1)
    shell P (command found)

  unfoldable pub login : Option String → Action P (Unit {0})
  login ssh_options = with_master (λ m. "ssh " <> (xstr ssh_options <> (" root@" <> m.public_ip)))

  unfoldable pub proxy : Option String → String → Action P (Unit {0})
  proxy ssh_options proxy_port = with_master (λ m.
      "ssh "
      <> (xstr ssh_options
          <> (" -o \"ConnectTimeout 10\" -o \"ServerAliveInterval 60\" -N -D localhost:"
              <> (proxy_port <> (" root@" <> m.public_ip)))))

  unfoldable pub push : Option String → String → Action P (Unit {0})
  push ssh_options file = with_master (λ m.
      "scp " <> (xstr ssh_options <> (" -r " <> (file <> (" root@" <> (m.public_ip <> ":"))))))

  unfoldable pub execute : Option String → List String → Action P (Unit {0})
  execute ssh_options args = with_master (λ m.
      "ssh "
      <> (xstr ssh_options <> (" root@" <> (m.public_ip <> (" '" <> (join " " args <> "'"))))))

  -- `list_all`: the clusters with a running namenode, and those with a master of the old name.
  unfoldable pub list_all : Action P (List String)
  list_all = do
    legacy_clusters ← on P (P.get_clusters_with_role "master")
    clusters ← on P (P.get_clusters_with_role namenode)
    return (clusters ++ legacy_clusters)
