-- ===== src/Storage/Attaching.antt =====
-- How `attach` (hadoop/cloud/providers/ec2.py) chooses the instances and the volumes.
use ec2_wrappers.Prelude.{Bool, true, false, String, List, [], ◌∷◌}
use ec2_wrappers.Prelude.{ok, arith, ◌≡◌, refl, sym, ◌∙◌, All, select, contains}
use ec2_wrappers.Prelude.{for_each, string_eq, ◌==◌, inl, inr, Bool-cases}
use ec2_wrappers.Prelude.{is_empty, eq_of_==, ==_of_ne, ne_of_==}
use ec2_wrappers.Prelude.Dict.{Dict, insert, erase, values}
use ec2_wrappers.Storage.{
  Volumes, World, Volume, MountableVolume, Instance, volumes_dict, instances_dict, zip, ids_of,
  storage_of, load, get_ec2_volumes_dict, get_instance_storage_for_role, attach_row, attach_rows,
  attach, concat,
}
use ec2_wrappers.Storage.Scanning.{is_free, holders, erase_all, IsKnown, scan_rows_lem}

-- Each instance stands under its own id.
abbrev Keyed : Dict String Instance → Type 0
Keyed d = All (λ kv. kv.1.id ≡ kv.0) d

Keyed-insert : (i : Instance) (d : Dict String Instance) → Keyed d → Keyed (insert i.id i d)
Keyed-insert i [] k = (refl, tt)
Keyed-insert i ((j, x) ∷ d) (e, k) = elim (Bool-cases (i.id == j)) [
  | inl b ↦ rw b (eq_of_== i.id j b, k)
  | inr b ↦ rw b (e, Keyed-insert i d k)
]

Keyed-instances_dict :
    (is : List Instance) (d : Dict String Instance) → Keyed d → Keyed (instances_dict is d)
unfolding instances_dict
Keyed-instances_dict [] d k = k
Keyed-instances_dict (i ∷ is) d k = Keyed-instances_dict is (insert i.id i d) (Keyed-insert i d k)

Keyed-erase : (key : String) (d : Dict String Instance) → Keyed d → Keyed (erase key d)
Keyed-erase key [] k = tt
Keyed-erase key ((j, x) ∷ d) (e, k) = elim (Bool-cases (key == j)) [
  | inl b ↦ rw b (Keyed-erase key d k)
  | inr b ↦ rw b (e, Keyed-erase key d k)
]

values-erase :
    (P : Instance → Type 0) (key : String) (d : Dict String Instance)
    → All P (values d)
    → All P (values (erase key d))
values-erase P key [] h = tt
values-erase P key ((j, x) ∷ d) (p, h) = elim (Bool-cases (key == j)) [
  | inl b ↦ rw b (values-erase P key d h)
  | inr b ↦ rw b (p, values-erase P key d h)
]

values-erase_all :
    (P : Instance → Type 0) (ks : List String) (d : Dict String Instance)
    → All P (values d)
    → All P (values (erase_all ks d))
values-erase_all P [] d h = h
values-erase_all P (k ∷ ks) d h = values-erase_all P ks (erase k d) (values-erase P k d h)

-- An instance that holds none of the volumes.
pub Spared : List String → Instance → Type 0
Spared ids i = contains ids i.id ≡ false

erase-ne :
    (key : String) (d : Dict String Instance)
    → Keyed d
    → All (λ i. (i.id == key) ≡ false) (values (erase key d))
erase-ne key [] k = tt
erase-ne key ((j, x) ∷ d) (e, k) = elim (Bool-cases (key == j)) [
  | inl b ↦ rw b (erase-ne key d k)
  | inr b ↦ rw b (==_of_ne x.id key (λ p. ne_of_== key j b (sym p ∙ e)), erase-ne key d k)
]

All-Spared :
    (k : String) (ks : List String) (is : List Instance)
    → All (λ i. (i.id == k) ≡ false) is
    → All (Spared ks) is
    → All (Spared (k ∷ ks)) is
unfolding Spared
All-Spared k ks [] h g = tt
All-Spared k ks (i ∷ is) (p, h) (q, g) = (rw (p, q) refl, All-Spared k ks is h g)

Spared-nil : (is : List Instance) → All (Spared []) is
unfolding Spared
Spared-nil [] = tt
Spared-nil (i ∷ is) = (refl, Spared-nil is)

erase_all-Spared :
    (ks : List String) (d : Dict String Instance)
    → Keyed d
    → All (Spared ks) (values (erase_all ks d))
unfolding Spared
erase_all-Spared [] d k = Spared-nil (values d)
erase_all-Spared (key ∷ ks) d k =
    All-Spared key ks (values (erase_all ks (erase key d)))
      (values-erase_all (λ i. (i.id == key) ≡ false) ks (erase key d) (erase-ne key d k))
      (erase_all-Spared ks (erase key d) (Keyed-erase key d k))

select-All {ℓ} : {A : Type ℓ} (p : A → Bool) (xs : List A) → All (λ x. p x ≡ true) (select p xs)
select-All p [] = tt
select-All p (x ∷ xs) = elim (Bool-cases (p x)) [
  | inl b ↦ rw b (b, select-All p xs)
  | inr b ↦ rw b (select-All p xs)
]

zip-All {ℓ κ} :
    {A : Type ℓ} {B : Type κ} (P : A → Type 0) (Q : B → Type 0) (xs : List A) (ys : List B)
    → All P xs
    → All Q ys
    → All (λ p. P p.0 × Q p.1) (zip xs ys)
unfolding zip
zip-All P Q [] ys h g = tt
zip-All P Q (x ∷ xs) [] h g = tt
zip-All P Q (x ∷ xs) (y ∷ ys) (p, h) (q, g) = ((p, q), zip-All P Q xs ys h g)

-- What `attach` does for the volumes of some instances, where EC2 gives the volumes of a dict.
abbrev pub planned :
    Dict String Volume
    → List (List MountableVolume)
    → List Instance
    → List (Instance × List MountableVolume)
planned vols rows is =
    zip (values (erase_all (holders vols (concat rows)) (instances_dict is [])))
      (select (is_free vols) rows)

module _ (V : Volumes) where
  pub get_ec2_volumes_dict_lem :
      (rows : List (List MountableVolume)) (w : World V) (volumes : List Volume)
      → V.get_all_volumes (ids_of rows) w.cloud ≡ ok volumes
      → get_ec2_volumes_dict V rows w ≡ (ok (volumes_dict volumes []), w)
  unfolding get_ec2_volumes_dict
  get_ec2_volumes_dict_lem rows w volumes h = ground arith

  attach_rows_lem :
      (rows : List (List MountableVolume)) (is : List Instance) (w : World V)
      (volumes : List Volume)
      → V.get_all_volumes (ids_of rows) w.cloud ≡ ok volumes
      → All (All (IsKnown (volumes_dict volumes []))) rows
      → attach_rows V rows is w
        ≡ for_each
            (planned (volumes_dict volumes []) rows is)
            (attach_row V (volumes_dict volumes []))
            w
  unfolding attach_rows
  attach_rows_lem rows is w volumes h known = ground (
    arith,
    get_ec2_volumes_dict_lem rows w volumes h,
    scan_rows_lem (volumes_dict volumes []) rows (instances_dict is []) known,
  )

  -- Where EC2 knows all volumes of a role, `attach` takes the running instances that hold none of
  -- them, and the lists of volumes that are all available, and attaches one such list to each such
  -- instance, as far as both reach. It attaches nothing else.
  pub attach_lem :
      (role : String) (is : List Instance) (w : World V) (volumes : List Volume)
      → let rows = storage_of V role (load V w) in
        let vols = volumes_dict volumes [] in
        is_empty rows ≡ false
        → V.get_all_volumes (ids_of rows) w.cloud ≡ ok volumes
        → All (All (IsKnown vols)) rows
        → (attach V role is w ≡ for_each (planned vols rows is) (attach_row V vols) w)
          × All
              (λ p. Spared (holders vols (concat rows)) p.0 × (is_free vols p.1 ≡ true))
              (planned vols rows is)
  unfolding attach get_instance_storage_for_role
  attach_lem role is w volumes some_rows h known =
      let rows = storage_of V role (load V w) in
      let vols = volumes_dict volumes [] in
      (
        rw some_rows (attach_rows_lem rows is w volumes h known),
        zip-All (Spared (holders vols (concat rows))) (λ row. is_free vols row ≡ true) _ _
            (erase_all-Spared (holders vols (concat rows)) (instances_dict is [])
              (Keyed-instances_dict is [] tt))
            (select-All (is_free vols) rows),
      )
