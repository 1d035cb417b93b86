-- ===== src/Service/Ec2/Tests.antt =====
-- A small account of EC2, with a cluster on it.
use ec2_wrappers.Prelude.{ℕ, zero, suc, ◌<◌, String, none, some, List, [], ◌∷◌, ◌++◌, map}
use ec2_wrappers.Prelude.{
  Result, ok, raised, timeout, ◌≡◌, refl, arith, select, contains, is_empty, not, ◌==◌,
}
use ec2_wrappers.Prelude.{string_eq, char_eq, nat_eq, if◌then◌else◌, ◌⊎◌, ltb}
use ec2_wrappers.Prelude.Reaches.{After}
use ec2_wrappers.Util.{text}
use ec2_wrappers.Ec2
use ec2_wrappers.Ec2.{Reservation, all_of}
use ec2_wrappers.Prelude.{all, ec2_error}
use ec2_wrappers.Cluster.{
  Compute, is_role_name, is_role_char, is_role_end, is_end, has_state, members, instances_of,
}
use ec2_wrappers.Cluster.Members.{ids}
use ec2_wrappers.Cluster.Tests.{worker}
use ec2_wrappers.Storage.{Volume}
use ec2_wrappers.Service.{World, InstanceTemplate, first, start_instances}
use ec2_wrappers.Service.Tests.{machine_of_user, it_of}
use ec2_wrappers.Prelude.Text.{starts_with}
use ec2_wrappers.Util.{xstr}
use ec2_wrappers.Storage.{characters}
use ec2_wrappers.Service.{script_of, unless_timeout}
use ec2_wrappers.Service.UserData.{read, replace_text}
use ec2_wrappers.Cluster
use ec2_wrappers.Cluster.Status.{print_status, print_roles}
use ec2_wrappers.Cluster.{
  check_role_name, create_groups, create_cluster_group, group_name_for_role, role_group,
  get_group_names, role_group_names, all_started, wait_loop,
}
use ec2_wrappers.Service.Ec2 as OnEc2
use ec2_wrappers.Service.Ec2.{
  in_time, or_empty, Account, Site, wait_for_volume, create_formatted_snapshot, provider_of,
  wait_for_instances, text_of,
}
use ec2_wrappers.Service.Ec2.Volume.{IsPending, wait_for_volume_lem, wait_for_volume_endless}
use ec2_wrappers.Service.Ec2.Snapshot.{IsCleared, with_cloud, create_formatted_snapshot-Outcome}

-- Security groups, reservations and volumes.
abbrev pub Cloud : Type 0
Cloud = List String × List Reservation × List Volume

abbrev reservation : List String → Reservation
reservation groups = record { groups = groups; instances = worker ∷ [] }

abbrev launch : List String → Cloud → Result Reservation × Cloud
launch groups c = (ok (reservation groups), (c.0, c.1 ++ (reservation groups ∷ []), c.2))

abbrev running : Ec2.Instance → Ec2.Instance
running i = record i { state = "running" }

abbrev all_running : List Reservation → List Reservation
all_running [] = []
all_running (res ∷ rest) = record res { instances = map running res.instances } ∷ all_running rest

abbrev compute : Compute
compute = record {
  Cloud = Cloud;
  get_all_security_groups = λ c. c.0;
  create_security_group = λ name text c. (ok tt, (c.0 ++ (name ∷ []), c.1, c.2));
  authorize_group = λ name other c. (ok tt, c);
  authorize_ports = λ name a b net c. (ok tt, c);
  revoke_ports = λ name a b net c. (ok tt, c);
  get_all_instances = λ c. c.1;
  run_instances = λ l c. launch l.security_groups c;
  terminate_instances = λ ids c. (ok tt, (c.0, [], c.2));
  delete_security_group = λ name c. (ok tt, c);
}

abbrev pub blank : Volume
blank = record { id = "v-9"; status = "available"; attached_to = none }

-- Instances run once the program has waited for them, from the third second on.
abbrev pub account : Account
account = record {
  compute = compute;
  create_volume = λ size zone snapshot c. (ok "v-9", (c.0, c.1, c.2 ++ (blank ∷ [])));
  get_all_volumes = λ ids c. ok (if is_empty ids then c.2 else select (λ v. contains ids v.id) c.2);
  attach_volume = λ volume instance device c. (ok tt, c);
  delete_volume = λ volume c. (ok tt, (c.0, c.1, select (λ v. not (v.id == volume)) c.2));
  run_instance = λ image key placement c. launch ("default" ∷ []) c;
  update = λ id c. ok "i-1.example.org";
  create_blank_volume = λ size zone c. (ok "v-9", (c.0, c.1, c.2 ++ (blank ∷ [])));
  detach_volume = λ volume instance c. (ok tt, c);
  create_snapshot = λ volume c. (ok "s-1", c);
  clock = λ n. n;
  instances_at = λ asked n c.
      if all (contains (ids (all_of c.1))) asked
      then ok (if ltb n 3 then c.1 else all_running c.1)
      else raised ec2_error;
  volumes_at = λ id n c. ok (blank ∷ []);
  later = λ c. (c.0, all_running c.1, c.2);
  read_file = λ name. ok "script";
  gzip = λ s. s;
  read_specs = λ name. ok [];
}

abbrev of_result : Result Reservation → Reservation
of_result (ok res) = res
of_result (raised e) = reservation []

abbrev site : Site account
site = record { storage = record { cloud = ([], [], []); file = none }; commands = [] }

abbrev template : InstanceTemplate
template = record (it_of ("nn" ∷ "jt" ∷ []) 1 []) { image_id = some (text "ami-1") }

abbrev empty : World (provider_of account 601 "c")
empty = record { cluster = site; files = []; calls = [] }

create_formatted_snapshot-Outcome_example :
    let s1 = with_cloud account site (launch ("default" ∷ []) site.storage.cloud).1 in
    let out = create_formatted_snapshot account 601 10 none "ami-1" none "" site in
    (((wait_for_instances account 601 ("i-1" ∷ []) s1).0 ≡ raised timeout)
      × (out ≡ (ok tt, with_cloud account site (account.later s1.storage.cloud))))
    ⊎ After (IsCleared account "i-1" 10 none (account.later s1.storage.cloud)) out
unfolding first text_of
create_formatted_snapshot-Outcome_example =
    create_formatted_snapshot-Outcome account 601 10 none "ami-1" none "" site
      (reservation ("default" ∷ [])) worker (launch ("default" ∷ []) site.storage.cloud).1 refl refl

-- A volume that is attached for two seconds.
abbrev held : Volume
held = record blank { status = "in-use" }

held-IsPending : IsPending (ok (held ∷ []))
unfolding string_eq
held-IsPending = record { volume = held; others = []; has_volume = refl; busy = refl }

abbrev statuses : ℕ → Result (List Volume)
statuses zero = ok (held ∷ [])
statuses (suc zero) = ok (held ∷ [])
statuses (suc (suc n)) = ok (blank ∷ [])

statuses-IsPending : (k : ℕ) → k < 2 → IsPending (statuses k)
statuses-IsPending zero h = held-IsPending
statuses-IsPending (suc zero) h = held-IsPending
statuses-IsPending (suc (suc k)) h = absurd (omega arith)

wait_for_volume_lem_example : wait_for_volume 1 statuses 1 ≡ none
unfolding string_eq
wait_for_volume_lem_example =
    wait_for_volume_lem statuses 2 blank [] refl refl statuses-IsPending 1 (omega arith)

wait_for_volume_endless_example : wait_for_volume 1000 (λ n. ok (held ∷ [])) 1 ≡ none
wait_for_volume_endless_example =
    wait_for_volume_endless (λ n. ok (held ∷ [])) 1000 1 (λ k. held-IsPending)

-- The instance that is launched is found at the end.
test-start_instances :
    (start_instances (provider_of account 601 "c") machine_of_user "hadoop" template "A=1" empty).0
    ≡ ok (some (record { id = "i-1"; public_ip = ""; private_ip = "" } ∷ []))
unfolding start_instances OnEc2.launch_instances Cluster.launch_instances check_role_name
    is_role_name is_role_char char_eq is_role_end create_groups create_cluster_group
    group_name_for_role string_eq role_group OnEc2.user_data get_group_names role_group_names
    unless_timeout wait_for_instances is_end all_started Cluster.is_ec2_error
    Cluster.wait_for_instances wait_loop starts_with in_time or_empty text_of read replace_text
    first script_of characters xstr nat_eq instances_of members has_state
    OnEc2.get_instances_in_role Cluster.get_instances_in_role OnEc2.instance_of print_status
    print_roles
test-start_instances = refl
