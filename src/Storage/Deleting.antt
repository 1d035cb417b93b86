-- ===== src/Storage/Deleting.antt =====
-- Which volumes `delete` (hadoop/cloud/providers/ec2.py) and `delete_storage`
-- (hadoop/cloud/service.py) delete.
use ec2_wrappers.Prelude.{true, false, Char, String, none, some, List, [], ◌∷◌, ok}
use ec2_wrappers.Prelude.{return, arith, ◌≡◌, refl, ap, ◌∙◌, all, for_each, raise, key_error}
use ec2_wrappers.Prelude.{string_eq, if◌then◌else◌, inl, inr, Bool-cases, Result-cases, ◌>>◌}
use ec2_wrappers.Prelude.Text.{char}
use ec2_wrappers.Prelude.Dict.{lookup, has_key, erase, values}
use ec2_wrappers.Storage.{
  Volumes, World, Action, Volume, is_available, volumes_dict, ids_of, storage_of, load, characters,
  get_instance_storage_for_role, delete_volumes, call, remove_instance_storage_for_role, delete,
}
use ec2_wrappers.Storage.Attaching.{get_ec2_volumes_dict_lem}

module _ (V : Volumes) where
  -- EC2 is asked to delete the volumes one after the other, up to the first that it refuses.
  abbrev pub delete_each : List Volume → Action V (Unit {0})
  delete_each vols = for_each vols (λ v. call V (V.delete v.id))

  delete_each-file : (vols : List Volume) (w : World V) → (delete_each vols w).1.file ≡ w.file
  delete_each-file [] w = refl
  delete_each-file (v ∷ vols) w = elim (Result-cases (V.delete v.id w.cloud).0) [
    | inl (a, h) ↦
        ground (arith, delete_each-file vols (record w { cloud = (V.delete v.id w.cloud).1 }))
    | inr (e, h) ↦ ground arith
  ]

  module _ (role : String) (roles : List String) (w : World V) (volumes : List Volume)
      (h : V.get_all_volumes (ids_of (storage_of V role (load V w))) w.cloud ≡ ok volumes) where
    -- With a volume of a role in use, `delete` returns at that role: its volumes and those of all
    -- roles after it stay, and so does the file.
    pub delete_busy :
        all is_available (values (volumes_dict volumes [])) ≡ false
        → delete V (role ∷ roles) w ≡ (ok tt, w)
    unfolding delete get_instance_storage_for_role
    delete_busy b =
        ground (arith, get_ec2_volumes_dict_lem V (storage_of V role (load V w)) w volumes h)

    -- With all volumes of a role available and deleted, the role leaves the file, and `delete` goes on
    -- with the next role.
    pub delete_free :
        (w' : World V)
        → all is_available (values (volumes_dict volumes [])) ≡ true
        → has_key role (load V w) ≡ true
        → delete_each (values (volumes_dict volumes [])) w ≡ (ok tt, w')
        → delete V (role ∷ roles) w
          ≡ delete V roles (record w' { file = some (erase role (load V w)) })
    unfolding delete get_instance_storage_for_role delete_volumes remove_instance_storage_for_role
    delete_free w' b k d = ground (
      arith,
      get_ec2_volumes_dict_lem V (storage_of V role (load V w)) w volumes h,
      delete_each-file (values (volumes_dict volumes [])) w,
    )

    -- A role that is not in the file.
    pub delete_unknown :
        all is_available (values (volumes_dict volumes [])) ≡ true
        → lookup role (load V w) ≡ none
        → delete V (role ∷ roles) w
          ≡ (delete_each (values (volumes_dict volumes [])) >> raise (key_error role)) w
    unfolding delete get_instance_storage_for_role delete_volumes remove_instance_storage_for_role
    delete_unknown b k = ground (
      arith,
      get_ec2_volumes_dict_lem V (storage_of V role (load V w)) w volumes h,
      delete_each-file (values (volumes_dict volumes [])) w,
    )

  unknown_ids :
      (role : String) (w : World V)
      → lookup role (load V w) ≡ none
      → ids_of (storage_of V role (load V w)) ≡ []
  unknown_ids role w k = ap (λ o. ids_of (elim o [ none ↦ [] | some rows ↦ rows ])) k

  -- What `delete_storage` does for a role whose first character is no role itself: it asks for the
  -- volumes of no ids, so that EC2 answers with all volumes of the account. If one of them is in use
  -- nothing is deleted, not even the volumes of the role; otherwise all volumes of the account are
  -- deleted, up to the first that EC2 refuses, and the call raises.
  pub delete_characters :
      (c : Char) (s : String) (w : World V) (volumes : List Volume)
      → lookup (char c) (load V w) ≡ none
      → V.get_all_volumes [] w.cloud ≡ ok volumes
      → let vols = values (volumes_dict volumes []) in
        delete V (characters (String.◌∷◌ c s)) w
        ≡ (if all is_available vols
              then delete_each vols >> raise (key_error (char c))
              else return tt)
            w
  unfolding characters
  delete_characters c s w volumes k h =
      let asks = ap (λ ids. V.get_all_volumes ids w.cloud) (unknown_ids (char c) w k) ∙ h in
      elim (Bool-cases (all is_available (values (volumes_dict volumes [])))) [
        | inl b ↦ rw b (delete_unknown (char c) (characters s) w volumes asks b k)
        | inr b ↦ rw b (delete_busy (char c) (characters s) w volumes asks b)
      ]
