-- ===== src/Cli/Cloud.antt =====
-- Commands (hadoop/cloud/cli.py, hadoop/cloud/service.py) on a cluster of EC2 (hadoop/cloud/providers/ec2.py).
use ec2_wrappers.Prelude.{ℕ, true, String, none, some, List, [], ◌∷◌, Result, Exn, ok, raised}
use ec2_wrappers.Prelude.{◌≡◌, refl, ap, ◌∙◌, arith, is_empty, for_each, Exec}
use ec2_wrappers.Prelude.{if◌then◌else◌, ◌>>=◌, string_eq, Bool-cases, inl, inr}
use ec2_wrappers.Prelude.Dict.{keys}
use ec2_wrappers.Ec2
use ec2_wrappers.Cluster.Status
use ec2_wrappers.Cluster
use ec2_wrappers.Cluster.{instances_of, members, has_state}
use ec2_wrappers.Ec2.{Reservation}
use ec2_wrappers.Prelude.{Bool, false, contains, contains-append, any, select, ◌==◌, ◌&&◌, ◌||◌}
use ec2_wrappers.Cluster.Members.{ids, ids-append}
use ec2_wrappers.Storage
use ec2_wrappers.Storage.{delete, get_roles, Volume, load, volumes_dict, is_available, characters}
use ec2_wrappers.Storage.Status.{print_status, any_recorded, print_status-Raises}
use ec2_wrappers.Service.{Host, World, Provider, on, terminate_cluster, delete_storage}
use ec2_wrappers.Service.Hadoop.{Polls}
use ec2_wrappers.Service.Zookeeper.{ServiceClass, hadoop_service, zookeeper_service}
use ec2_wrappers.Service.Ec2.{Account, volumes, in_cloud, in_storage, forget, provider_of}
use ec2_wrappers.Cli.{Call}
use ec2_wrappers.Cli.Perform.{perform, perform_hadoop, perform_zookeeper, perform_any}

module _ (E : Account) (patience : ℕ) (name : String) (H : Host) (fuel : ℕ) (polls : Polls) where
  abbrev P : Provider
  P = provider_of E patience name

  -- The instances of the cluster that EC2 reports as running.
  abbrev pub running_in : World P → List Ec2.Instance
  running_in w =
      instances_of name (some "running") (E.compute.get_all_instances w.cluster.storage.cloud)

  -- Whether EC2 reports an instance of the id as running in a reservation of the group.
  abbrev pub is_reported : String → String → List Reservation → Bool
  is_reported group id [] = false
  is_reported group id (res ∷ rest) =
      (contains res.groups group && any (λ i. i.id == id && i.state == "running") res.instances)
      || is_reported group id rest

  selected :
      (id : String) (is : List Ec2.Instance)
      → contains (ids (select (has_state (some "running")) is)) id
        ≡ any (λ (i : Ec2.Instance). i.id == id && i.state == "running") is
  unfolding has_state
  selected id [] = refl
  selected id (i ∷ is) = elim (Bool-cases (i.state == "running")) [
    | inl b ↦ ground (arith, selected id is)
    | inr b ↦ ground (arith, selected id is)
  ]

  member :
      (group id : String) (groups : List String) (is : List Ec2.Instance)
      → contains (ids (members group (some "running") groups is)) id ≡ (
          contains groups group
          && any (λ (i : Ec2.Instance). i.id == id && i.state == "running") is)
  unfolding members
  member group id [] is = refl
  member group id (g ∷ groups) is =
      let running = select (has_state (some "running")) is in
      let rest = members group (some "running") groups is in
      elim (Bool-cases (g == group)) [
        | inl b ↦ ground (
          arith,
          ap (λ names. contains names id) (ids-append running rest),
          contains-append (ids running) (ids rest) id,
          selected id is,
          member group id groups is,
        )
        | inr b ↦ ground (arith, member group id groups is)
      ]

  reported :
      (group id : String) (reservations : List Reservation)
      → contains (ids (instances_of group (some "running") reservations)) id
        ≡ is_reported group id reservations
  unfolding instances_of
  reported group id [] = refl
  reported group id (res ∷ rest) =
      let here = members group (some "running") res.groups res.instances in
      let more = instances_of group (some "running") rest in
      ap (λ names. contains names id) (ids-append here more)
      ∙ contains-append (ids here) (ids more) id
      ∙ ground (arith, member group id res.groups res.instances, reported group id rest)

  terminate_running :
      (w : World P)
      → terminate_cluster P H true w ≡ (
          if is_empty (running_in w)
          then (ok tt, w)
          else on P (in_cloud E (E.compute.terminate_instances (ids (running_in w)))) w)
  unfolding terminate_cluster Cluster.terminate Cluster.Status.print_status
  terminate_running w = elim (Bool-cases (is_empty (running_in w))) [
    | inl e ↦ ground arith
    | inr e ↦ ground arith
  ]

  -- With --force, terminate-cluster asks EC2 to terminate a list of instances in one call that ends the
  -- command, or does nothing where the list is empty. The list has exactly the instances that EC2
  -- reports as running in a reservation with the group of the cluster.
  pub perform-terminate :
      (service : ServiceClass) (w : World P)
      → (perform P H fuel polls service (Call.terminate_cluster true) w ≡ (
          if is_empty (running_in w)
          then (ok tt, w)
          else on P (in_cloud E (E.compute.terminate_instances (ids (running_in w)))) w))
        × ((id : String)
            → contains (ids (running_in w)) id
              ≡ is_reported name id (E.compute.get_all_instances w.cluster.storage.cloud))
  unfolding perform perform_hadoop perform_zookeeper perform_any
  perform-terminate hadoop_service w = (terminate_running w, λ id. reported name id _)
  perform-terminate zookeeper_service w = (terminate_running w, λ id. reported name id _)

  raised_cases :
      {A : Type 0} (w : World P) (q : Result A × Storage.World (volumes E)) (x : Exn)
      (f : Unit {0} → Exec (World P) (Unit {0}))
      → q ≡ (raised x, w.cluster.storage)
      → (on P (forget E (in_storage E (λ _. q))) >>= f) w ≡ (raised x, w)
  raised_cases w q x f e = rw e refl

  abbrev after_print : Exec (World P) (Unit {0})
  after_print =
      on P P.get_storage_roles
      >>= (λ rs. for_each rs (λ role. on P (P.delete_storage (characters role))))

  delete_storage-raises :
      (w : World P)
      → any_recorded (volumes E) (keys (load (volumes E) w.cluster.storage)) w.cluster.storage
        ≡ true
      → (e : Exn) × (delete_storage P H true w ≡ (raised e, w))
  unfolding delete_storage
  delete_storage-raises w h =
      let (x, e) = print_status-Raises (volumes E) w.cluster.storage h in
      (x, raised_cases w (print_status (volumes E) none w.cluster.storage) x (λ _. after_print) e)

  -- With --force, where the file of the cluster records a volume, in whatever role: delete-storage raises
  -- and nothing is deleted, since it first shows the volumes, and reads attributes that the volumes of
  -- boto do not have.
  pub perform-delete_storage :
      (service : ServiceClass) (w : World P)
      → any_recorded (volumes E) (keys (load (volumes E) w.cluster.storage)) w.cluster.storage
        ≡ true
      → (e : Exn) × (perform P H fuel polls service (Call.delete_storage true) w ≡ (raised e, w))
  unfolding perform perform_hadoop perform_zookeeper perform_any
  perform-delete_storage hadoop_service w h = delete_storage-raises w h
  perform-delete_storage zookeeper_service w h = delete_storage-raises w h
