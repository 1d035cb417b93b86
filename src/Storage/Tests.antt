-- ===== src/Storage/Tests.antt =====
-- The volumes of a small cluster (hadoop/cloud/providers/ec2.py).
use ec2_wrappers.Prelude.{true, String, Option, none, some, List, [], ◌∷◌, ◌++◌, ok}
use ec2_wrappers.Prelude.{refl, ◌≡◌, ◌≢◌, select, contains, not, is_empty, string_eq, ◌==◌}
use ec2_wrappers.Prelude.{ne_of_==, All, for_each, if◌then◌else◌}
use ec2_wrappers.Prelude.Dict.{Dict, lookup}
use ec2_wrappers.Storage.{
  Volumes, World, Volume, VolumeSpec, MountableVolume, Instance, create, attach, volumes_dict,
  attach_row,
}
use ec2_wrappers.Storage.Kept.{Grows, create-Grows}
use ec2_wrappers.Storage.Mappings.{latest, mappings, create-mappings}
use ec2_wrappers.Storage.{
  create_volumes, add_instance_storage_for_role, get_mappings_string_for_role, mappings_string,
}
use ec2_wrappers.Storage.Attaching.{planned, Spared, attach_lem}
use ec2_wrappers.Storage.Scanning.{is_free, holders}

-- An account with volumes and nothing else.
abbrev disks : Volumes
disks = record {
  Cloud = List Volume;
  create_volume = λ size zone snapshot c.
      (ok "v-3", c ++ (record { id = "v-3"; status = "available"; attached_to = none } ∷ []));
  get_all_volumes = λ ids c. ok (if is_empty ids then c else select (λ v. contains ids v.id) c);
  attach = λ volume instance device c. (ok tt, c);
  delete = λ volume c. (ok tt, select (λ v. not (v.id == volume)) c);
}

abbrev volume : String → String → Option String → Volume
volume id status to = record { id = id; status = status; attached_to = to }

abbrev mountable : String → MountableVolume
mountable id = record { volume_id = id; mount_point = "/data"; device = "/dev/sdj" }

-- The master holds a volume, the volume of the workers is free, and one belongs to nobody here.
abbrev cluster : World disks
cluster = record {
  cloud =
      volume "v-0" "in-use" (some "i-0")
      ∷ volume "v-1" "available" none
      ∷ volume "v-2" "available" none
      ∷ [];
  file =
      some (("master", (mountable "v-0" ∷ []) ∷ []) ∷ ("worker", (mountable "v-1" ∷ []) ∷ []) ∷ []);
}

abbrev spec : Dict String (List VolumeSpec)
spec =
    (
      "worker",
      record { size = 10; mount_point = "/data"; device = "/dev/sdk"; snapshot_id = "s" } ∷ [],
    )
    ∷ []

worker-ne : (a : String) × (a ≢ "worker")
unfolding string_eq
worker-ne = ("master", ne_of_== "master" "worker" refl)

create-Grows_example :
    Grows disks "worker" worker-ne.0
      (record { size = 10; mount_point = "/data"; device = "/dev/sdk"; snapshot_id = "s" } ∷ [])
      2
      cluster
      (create disks "worker" 2 "us-east-1a" spec cluster)
unfolding string_eq
create-Grows_example =
    create-Grows disks "worker" worker-ne.0 "us-east-1a" 2 spec cluster _ refl worker-ne.1

create-mappings_example :
    let after = (create disks "worker" 2 "us-east-1a" spec cluster).1 in
    (get_mappings_string_for_role disks "worker" after
      ≡ (ok (mappings_string (mappings disks "worker" after)), after))
    × ((p : String)
        → lookup p (mappings disks "worker" after)
          ≡ latest p (("/data", "/dev/sdk") ∷ []) (lookup p (mappings disks "worker" cluster)))
unfolding create create_volumes add_instance_storage_for_role string_eq
create-mappings_example = create-mappings disks "worker" "us-east-1a" 1 spec cluster _ refl refl

abbrev running : List Instance
running = record { id = "i-1"; public_ip = "p"; private_ip = "q" } ∷ []

attach_example :
    let vols = volumes_dict (volume "v-1" "available" none ∷ []) [] in
    (attach disks "worker" running cluster
      ≡ for_each
          (planned vols ((mountable "v-1" ∷ []) ∷ []) running)
          (attach_row disks vols)
          cluster)
    × All
        (λ p. Spared (holders vols (mountable "v-1" ∷ [])) p.0 × (is_free vols p.1 ≡ true))
        (planned vols ((mountable "v-1" ∷ []) ∷ []) running)
unfolding string_eq volumes_dict
attach_example =
    attach_lem disks "worker" running cluster (volume "v-1" "available" none ∷ []) refl refl
      (((_, refl), tt), tt)
