-- ===== src/Storage/Shapes.antt =====
-- The volumes of a cluster, their specifications, and how `attach` chooses among them
-- (hadoop/cloud/storage.py, hadoop/cloud/providers/ec2.py).
use ec2_wrappers.Prelude.{ℕ, Bool, true, String, ◌<>◌, Option, none, some, List, [], ◌∷◌}
use ec2_wrappers.Prelude.{
  ◌++◌, map, Result, ok, raised, ◌&&◌, key_error, string_eq, ◌==◌, if◌then◌else◌,
}
use ec2_wrappers.Prelude.Text.{join, char}
use ec2_wrappers.Prelude.Dict.{Dict, lookup, insert, erase}

pub record VolumeSpec : Type 0 where
  pub size : ℕ
  pub mount_point : String
  pub device : String
  pub snapshot_id : String

pub record MountableVolume : Type 0 where
  pub volume_id : String
  pub mount_point : String
  pub device : String

-- The parsed file of a cluster: for each role the volumes of each instance.
abbrev pub Contents : Type 0
Contents = Dict String (List (List MountableVolume))

-- The `Instance` of hadoop/cloud/cluster.py.
pub record Instance : Type 0 where
  pub id : String
  pub public_ip : String
  pub private_ip : String

-- A volume as EC2 reports it, and the instance that it is attached to.
pub record Volume : Type 0 where
  pub id : String
  pub status : String
  pub attached_to : Option String

-- The calls of EC2. Without ids `get_all_volumes` answers with every volume of the account.
pub record Volumes : Type 1 where
  pub Cloud : Type 0
  pub create_volume : ℕ → String → String → Cloud → Result String × Cloud
  pub get_all_volumes : List String → Cloud → Result (List Volume)
  pub attach : String → String → String → Cloud → Result (Unit {0}) × Cloud
  pub delete : String → Cloud → Result (Unit {0}) × Cloud

-- `"mount_point1,device1;mount_point2,device2"`
unfoldable pub mappings_string : List (String × String) → String
mappings_string pairs = join ";" (map (λ p. p.0 <> ("," <> p.1)) pairs)

-- JsonVolumeSpecManager
unfoldable pub spec_mappings_string : String → Dict String (List VolumeSpec) → Result String
spec_mappings_string role spec = elim (lookup role spec) [
  | none ↦ raised (key_error role)
  | some specs ↦ ok (mappings_string (map (λ d. (d.mount_point, d.device)) specs))
]

-- `mappings[mv.mount_point] = mv.device`, for all volumes in turn.
unfoldable pub mapped : List MountableVolume → Dict String String → Dict String String
mapped [] d = d
mapped (mv ∷ mvs) d = mapped mvs (insert mv.mount_point mv.device d)

-- `sum(lists, [])`
abbrev pub concat {ℓ} : {A : Type ℓ} → List (List A) → List A
concat [] = []
concat (xs ∷ xss) = xs ++ concat xss

abbrev pub ids_of : List (List MountableVolume) → List String
ids_of rows = map (λ mv. mv.volume_id) (concat rows)

-- The dict by id; a later volume of the same id takes the place.
unfoldable pub volumes_dict : List Volume → Dict String Volume → Dict String Volume
volumes_dict [] d = d
volumes_dict (v ∷ vs) d = volumes_dict vs (insert v.id v d)

unfoldable pub instances_dict : List Instance → Dict String Instance → Dict String Instance
instances_dict [] d = d
instances_dict (i ∷ is) d = instances_dict is (insert i.id i d)

abbrev pub is_available : Volume → Bool
is_available v = v.status == "available"

-- `ec2_volumes[volume_id]`
unfoldable pub volume_of : Dict String Volume → String → Result Volume
volume_of vols id = elim (lookup id vols) [ none ↦ raised (key_error id) | some v ↦ ok v ]

-- `if has_key(instance_id): del …`
unfoldable pub drop_holder : Option String → Dict String Instance → Dict String Instance
drop_holder none free = free
drop_holder (some id) free = erase id free

-- The inner loop of `attach` over the volumes of one instance: whether all are available, and the
-- instances that still have no volume.
unfoldable pub scan_row :
    Dict String Volume
    → List MountableVolume
    → Dict String Instance
    → Result (Bool × Dict String Instance)
scan_row vols [] free = ok (true, free)
scan_row vols (mv ∷ mvs) free = elim (volume_of vols mv.volume_id) [
  | raised e ↦ raised e
  | ok v ↦
      let free' = if is_available v then free else drop_holder v.attached_to free in
      elim (scan_row vols mvs free') [
        | raised e ↦ raised e
        | ok (available, left) ↦ ok (is_available v && available, left)
      ]
]

-- The outer loop.
unfoldable pub scan_rows :
    Dict String Volume
    → List (List MountableVolume)
    → Dict String Instance
    → Result (List (List MountableVolume) × Dict String Instance)
scan_rows vols [] free = ok ([], free)
scan_rows vols (row ∷ rows) free = elim (scan_row vols row free) [
  | raised e ↦ raised e
  | ok (available, left) ↦ elim (scan_rows vols rows left) [
    | raised e ↦ raised e
    | ok (more, last) ↦ ok (if available then row ∷ more else more, last)
  ]
]

-- `zip(xs, ys)`
unfoldable pub zip {ℓ κ} : {A : Type ℓ} {B : Type κ} → List A → List B → List (A × B)
zip [] ys = []
zip (x ∷ xs) [] = []
zip (x ∷ xs) (y ∷ ys) = (x, y) ∷ zip xs ys

-- A text iterates as its characters.
unfoldable pub characters : String → List String
characters String.[] = []
characters (String.◌∷◌ c s) = char c ∷ characters s
