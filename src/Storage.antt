-- ===== src/Storage.antt =====
-- hadoop/cloud/storage.py and the class Ec2Storage of hadoop/cloud/providers/ec2.py: the volumes of a
-- cluster. EC2 is a parameter; the JSON file is what it holds once it is parsed.
pub mod Kept
pub mod Mappings
pub mod Attaching
pub mod Scanning
pub mod Deleting
pub mod Status
mod Tests
mod Shapes
unfoldable pub use Shapes.*
use ec2_wrappers.Prelude.{
  ℕ, zero, suc, Bool, true, false, String, ◌<>◌, Option, none, some, List, [], ◌∷◌,
}
use ec2_wrappers.Prelude.{
  ◌++◌, map, Result, ok, raised, Exec, return, raise, gets, lift, modify, or_raise,
}
use ec2_wrappers.Prelude.{
  for_each, ◌>>=◌, ◌>>◌, any, all, is_empty, not, ◌&&◌, key_error, string_eq,
}
use ec2_wrappers.Prelude.{◌==◌, if◌then◌else◌, when}
use ec2_wrappers.Prelude.Text.{join, char}
use ec2_wrappers.Prelude.Dict.{Dict, lookup, insert, erase, keys, values}
use Shapes.{
  VolumeSpec, MountableVolume, Contents, Instance, Volume, Volumes, mappings_string, mapped, concat,
  ids_of, volumes_dict, instances_dict, is_available, volume_of, scan_rows, zip, characters,
}

module _ (V : Volumes) where
  pub record World : Type 0 where
    pub cloud : V.Cloud
    -- `none` where the file does not exist
    pub file : Option Contents

  abbrev pub Action : Type 0 → Type 0
  Action A = Exec World A

  abbrev pub call : {A : Type 0} → (V.Cloud → Result A × V.Cloud) → Action A
  call f w = let (r, c) = f w.cloud in (r, record w { cloud = c })

  abbrev pub load : World → Contents
  load w = elim w.file [ none ↦ [] | some contents ↦ contents ]

  abbrev pub store : Contents → Action (Unit {0})
  store contents = modify (λ w. record w { file = some contents })

  unfoldable pub get_roles : Action (List String)
  get_roles = gets (λ w. keys (load w))

  -- `json_dict[role]`, and `[]` for a KeyError
  abbrev pub storage_of : String → Contents → List (List MountableVolume)
  storage_of role contents = elim (lookup role contents) [ none ↦ [] | some rows ↦ rows ]

  unfoldable pub add_instance_storage_for_role : String → List MountableVolume → Action (Unit {0})
  add_instance_storage_for_role role mvs = do
    contents ← gets load
    store (insert role (storage_of role contents ++ (mvs ∷ [])) contents)

  unfoldable pub remove_instance_storage_for_role : String → Action (Unit {0})
  remove_instance_storage_for_role role = do
    contents ← gets load
    or_raise (lookup role contents) (key_error role)
    store (erase role contents)

  unfoldable pub get_instance_storage_for_role : String → Action (List (List MountableVolume))
  get_instance_storage_for_role role = gets (λ w. storage_of role (load w))

  -- The inner loop of `create`.
  unfoldable pub create_volumes : String → List VolumeSpec → Action (List MountableVolume)
  create_volumes zone [] = return []
  create_volumes zone (s ∷ specs) = do
    id ← call (V.create_volume s.size zone s.snapshot_id)
    rest ← create_volumes zone specs
    return (record { volume_id = id; mount_point = s.mount_point; device = s.device } ∷ rest)

  -- `create`, past the reading of the file of specifications.
  unfoldable pub create : String → ℕ → String → Dict String (List VolumeSpec) → Action (Unit {0})
  create role zero zone spec = return tt
  create role (suc n) zone spec = do
    specs ← or_raise (lookup role spec) (key_error role)
    mvs ← create_volumes zone specs
    add_instance_storage_for_role role mvs
    create role n zone spec

  unfoldable pub get_mappings_string_for_role : String → Action String
  get_mappings_string_for_role role = do
    rows ← get_instance_storage_for_role role
    return (mappings_string (mapped (concat rows) []))

  unfoldable pub has_any_storage : List String → Action Bool
  has_any_storage roles = gets (λ w. any (λ role. not (is_empty (storage_of role (load w)))) roles)

  unfoldable pub get_ec2_volumes_dict : List (List MountableVolume) → Action (Dict String Volume)
  get_ec2_volumes_dict rows = do
    volumes ← (λ w. (V.get_all_volumes (ids_of rows) w.cloud, w))
    return (volumes_dict volumes [])

  unfoldable pub attach_row :
      Dict String Volume → Instance × List MountableVolume → Action (Unit {0})
  attach_row vols (i, row) =
      for_each row
        (λ mv. do v ← lift (volume_of vols mv.volume_id); call (V.attach v.id i.id mv.device))

  -- `attach`, past its test for storage.
  unfoldable pub attach_rows : List (List MountableVolume) → List Instance → Action (Unit {0})
  attach_rows rows instances = do
    vols ← get_ec2_volumes_dict rows
    scanned ← lift (scan_rows vols rows (instances_dict instances []))
    for_each (zip (values scanned.1) scanned.0) (attach_row vols)

  unfoldable pub attach : String → List Instance → Action (Unit {0})
  attach role instances = do
    rows ← get_instance_storage_for_role role
    when (not (is_empty rows)) (attach_rows rows instances)

  -- What `delete` does for a role whose volumes are all available.
  unfoldable pub delete_volumes : String → Dict String Volume → Action (Unit {0})
  delete_volumes role vols = do
    for_each (values vols) (λ v. call (V.delete v.id))
    remove_instance_storage_for_role role

  -- It returns at the first role with a volume in use.
  unfoldable pub delete : List String → Action (Unit {0})
  delete [] = return tt
  delete (role ∷ roles) = do
    let rest = delete roles
    rows ← get_instance_storage_for_role role
    vols ← get_ec2_volumes_dict rows
    when (all is_available (values vols)) (do delete_volumes role vols; rest)

  -- `delete_storage` of hadoop/cloud/service.py, past its prompt: `delete` is given one role where it
  -- takes a list of roles.
  unfoldable pub delete_storage : Action (Unit {0})
  delete_storage = do roles ← get_roles; for_each roles (λ role. delete (characters role))
