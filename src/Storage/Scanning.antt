-- ===== src/Storage/Scanning.antt =====
-- How the loops of `attach` (hadoop/cloud/providers/ec2.py) go over the volumes.
use ec2_wrappers.Prelude.{Bool, false, String, Option, none, some, List, [], ◌∷◌, ◌++◌}
use ec2_wrappers.Prelude.{ok, arith, ◌≡◌, refl, sym, ap, ◌∙◌, All, all, select}
use ec2_wrappers.Prelude.{string_eq, if◌then◌else◌, inl, inr, Option-cases, Bool-cases}
use ec2_wrappers.Prelude.Dict.{Dict, lookup, erase}
use ec2_wrappers.Storage.{
  Volume, MountableVolume, Instance, is_available, volume_of, drop_holder, scan_row, scan_rows,
  concat,
}

-- What EC2 says of the volume of an id.
abbrev free_volume : Option Volume → Bool
free_volume none = false
free_volume (some v) = is_available v

abbrev holder : Option Volume → Option String
holder none = none
holder (some v) = if is_available v then none else v.attached_to

-- Whether all volumes of an instance are available.
abbrev pub is_free : Dict String Volume → List MountableVolume → Bool
is_free vols row = all (λ mv. free_volume (lookup mv.volume_id vols)) row

-- The instances that hold a volume.
abbrev cons_some : Option String → List String → List String
cons_some none ids = ids
cons_some (some id) ids = id ∷ ids

abbrev pub holders : Dict String Volume → List MountableVolume → List String
holders vols [] = []
holders vols (mv ∷ mvs) = cons_some (holder (lookup mv.volume_id vols)) (holders vols mvs)

abbrev pub erase_all {ℓ} : {A : Type ℓ} → List String → Dict String A → Dict String A
erase_all [] d = d
erase_all (k ∷ ks) d = erase_all ks (erase k d)

-- EC2 knows the volumes of an instance.
abbrev pub IsKnown : Dict String Volume → MountableVolume → Type 0
IsKnown vols mv = (v : Volume) × (lookup mv.volume_id vols ≡ some v)

scan_row_lem :
    (vols : Dict String Volume) (row : List MountableVolume) (free : Dict String Instance)
    → All (IsKnown vols) row
    → scan_row vols row free ≡ ok (is_free vols row, erase_all (holders vols row) free)
unfolding scan_row volume_of drop_holder
scan_row_lem vols [] free known = refl
scan_row_lem vols (mv ∷ mvs) free ((v, h), known) = elim (Bool-cases (is_available v)) [
  | inl b ↦ ground (arith, scan_row_lem vols mvs free known)
  | inr b ↦ elim (Option-cases v.attached_to) [
    | inl n ↦ ground (arith, scan_row_lem vols mvs free known)
    | inr (id, n) ↦ ground (arith, scan_row_lem vols mvs (erase id free) known)
  ]
]

cons_some-append :
    (o : Option String) (xs ys : List String) → cons_some o xs ++ ys ≡ cons_some o (xs ++ ys)
cons_some-append none xs ys = refl
cons_some-append (some id) xs ys = refl

holders-append :
    (vols : Dict String Volume) (xs ys : List MountableVolume)
    → holders vols (xs ++ ys) ≡ holders vols xs ++ holders vols ys
holders-append vols [] ys = refl
holders-append vols (mv ∷ xs) ys =
    ap (cons_some (holder (lookup mv.volume_id vols))) (holders-append vols xs ys)
    ∙ sym (cons_some-append (holder (lookup mv.volume_id vols)) (holders vols xs) (holders vols ys))

erase_all-append {ℓ} :
    {A : Type ℓ} (ks js : List String) (d : Dict String A)
    → erase_all (ks ++ js) d ≡ erase_all js (erase_all ks d)
erase_all-append [] js d = refl
erase_all-append (k ∷ ks) js d = erase_all-append ks js (erase k d)

-- The two loops keep the instances that hold no volume of the role, and the rows of volumes that are
-- all available.
pub scan_rows_lem :
    (vols : Dict String Volume) (rows : List (List MountableVolume)) (free : Dict String Instance)
    → All (All (IsKnown vols)) rows
    → scan_rows vols rows free
      ≡ ok (select (is_free vols) rows, erase_all (holders vols (concat rows)) free)
unfolding scan_rows
scan_rows_lem vols [] free known = refl
scan_rows_lem vols (row ∷ rows) free (k, known) =
    rw (scan_row_lem vols row free k, scan_rows)
      (rw (scan_rows_lem vols rows (erase_all (holders vols row) free) known) (
        rw (holders-append vols row (concat rows))
          (rw (erase_all-append (holders vols row) (holders vols (concat rows)) free) refl)))
