-- ===== src/Storage/Kept.antt =====
-- What `create` (hadoop/cloud/providers/ec2.py) writes to the file of a cluster.
use mathlib.Core.List.{append-nil, append_assoc}
use mathlib.Core.Path.{subst}
use ec2_wrappers.Prelude.{ℕ, zero, suc, ◌<◌, ◌≡◌, ◌≢◌, refl, sym, ap, ◌∙◌, String, none, some}
use ec2_wrappers.Prelude.{
  List, [], ◌∷◌, ◌++◌, map, Result, Exn, ok, raised, arith, All, length, inl, inr,
}
use ec2_wrappers.Prelude.{◌⊎◌, Result-cases, string_eq}
use ec2_wrappers.Prelude.Dict.{Dict, lookup, insert, lookup-insert_self, lookup-insert_ne}
use ec2_wrappers.Storage.{
  Volumes, World, VolumeSpec, MountableVolume, load, storage_of, create, create_volumes,
  add_instance_storage_for_role,
}

-- Where the volumes of an instance are to be mounted, and where they are.
abbrev pub wanted : List VolumeSpec → List (String × String)
wanted specs = map (λ s. (s.mount_point, s.device)) specs

abbrev pub mounts : List MountableVolume → List (String × String)
mounts row = map (λ mv. (mv.mount_point, mv.device)) row

abbrev points_of : Result (List MountableVolume) → List (String × String)
points_of (ok row) = mounts row
points_of (raised e) = []

module _ (V : Volumes) where
  -- The world after EC2 was asked for a volume.
  abbrev asked : String → VolumeSpec → World V → World V
  asked zone s w = record w { cloud = (V.create_volume s.size zone s.snapshot_id w.cloud).1 }

  create_volumes-mounts :
      (zone : String) (specs : List VolumeSpec) (w : World V) (row : List MountableVolume)
      → (create_volumes V zone specs w).0 ≡ ok row
      → mounts row ≡ wanted specs
  unfolding create_volumes
  create_volumes-mounts zone [] w row h = ap points_of (sym h)
  create_volumes-mounts zone (s ∷ specs) w row h =
      elim (Result-cases (V.create_volume s.size zone s.snapshot_id w.cloud).0) [
        | inr (e, k) ↦ ground arith
        | inl (id, k) ↦ elim (Result-cases (create_volumes V zone specs (asked zone s w)).0) [
          | inr (e, l) ↦ ground arith
          | inl (rest, l) ↦ ground (arith, create_volumes-mounts zone specs (asked zone s w) rest l)
        ]
      ]

  create_volumes-file :
      (zone : String) (specs : List VolumeSpec) (w : World V)
      → (create_volumes V zone specs w).1.file ≡ w.file
  unfolding create_volumes
  create_volumes-file zone [] w = refl
  create_volumes-file zone (s ∷ specs) w =
      elim (Result-cases (V.create_volume s.size zone s.snapshot_id w.cloud).0) [
        | inr (e, h) ↦ ground arith
        | inl (id, h) ↦ elim (Result-cases (create_volumes V zone specs (asked zone s w)).0) [
          | inr (e, l) ↦ ground (arith, create_volumes-file zone specs (asked zone s w))
          | inl (rest, l) ↦ ground (arith, create_volumes-file zone specs (asked zone s w))
        ]
      ]

  -- The world after the volumes of one instance were written to the file.
  abbrev added : String → List MountableVolume → World V → World V
  added role row w = record w {
    file = some (insert role (storage_of V role (load V w) ++ (row ∷ [])) (load V w));
  }

  create-zero :
      (role zone : String) (spec : Dict String (List VolumeSpec)) (w : World V)
      → create V role 0 zone spec w ≡ (ok tt, w)
  unfolding create
  create-zero role zone spec w = refl

  create-next :
      (role zone : String) (n : ℕ) (spec : Dict String (List VolumeSpec)) (w : World V)
      (specs : List VolumeSpec) (row : List MountableVolume)
      → lookup role spec ≡ some specs
      → (create_volumes V zone specs w).0 ≡ ok row
      → create V role (suc n) zone spec w
        ≡ create V role n zone spec (added role row (create_volumes V zone specs w).1)
  unfolding create add_instance_storage_for_role
  create-next role zone n spec w specs row h k = ground arith

  create-raised :
      (role zone : String) (n : ℕ) (spec : Dict String (List VolumeSpec)) (w : World V)
      (specs : List VolumeSpec) (e : Exn)
      → lookup role spec ≡ some specs
      → (create_volumes V zone specs w).0 ≡ raised e
      → create V role (suc n) zone spec w ≡ (raised e, (create_volumes V zone specs w).1)
  unfolding create
  create-raised role zone n spec w specs e h k = ground arith

  storage_of-added :
      (role : String) (row : List MountableVolume) (w : World V)
      → storage_of V role (load V (added role row w)) ≡ storage_of V role (load V w) ++ (row ∷ [])
  storage_of-added role row w =
      ap (λ o. elim o [ none ↦ [] | some rows ↦ rows ]) (lookup-insert_self role _ (load V w))

  -- The volumes of some instances were added for a role, each with the mount points and devices of
  -- the specifications; of all `n` instances unless the call raised.
  pub record Grows (role other : String) (specs : List VolumeSpec) (n : ℕ) (w : World V)
      (out : Result (Unit {0}) × World V) : Type 0 where
    pub new : List (List MountableVolume)
    pub has_storage : storage_of V role (load V out.1) ≡ storage_of V role (load V w) ++ new
    pub others : lookup other (load V out.1) ≡ lookup other (load V w)
    pub fit : All (λ row. mounts row ≡ wanted specs) new
    pub ends :
        ((out.0 ≡ ok tt) × (length new ≡ n)) ⊎ ((e : Exn) × (out.0 ≡ raised e) × (length new < n))

  load-create_volumes :
      (zone : String) (specs : List VolumeSpec) (w : World V)
      → load V (create_volumes V zone specs w).1 ≡ load V w
  load-create_volumes zone specs w =
      ap (λ f. elim f [ none ↦ [] | some contents ↦ contents ]) (create_volumes-file zone specs w)

  Grows-raised :
      (role other : String) (specs : List VolumeSpec) (n : ℕ) (w : World V) (e : Exn) (w' : World V)
      → load V w' ≡ load V w
      → Grows role other specs (suc n) w (raised e, w')
  Grows-raised role other specs n w e w' h = record {
    new = [];
    has_storage = ap (storage_of V role) h ∙ sym (append-nil _);
    others = ap (lookup other) h;
    fit = tt;
    ends = inr (e, refl, omega arith);
  }

  Grows-next :
      (role other : String) (specs : List VolumeSpec) (n : ℕ) (w w' : World V)
      (row : List MountableVolume) (out : Result (Unit {0}) × World V)
      → other ≢ role
      → mounts row ≡ wanted specs
      → load V w' ≡ load V w
      → Grows role other specs n (added role row w') out
      → Grows role other specs (suc n) w out
  Grows-next role other specs n w w' row out ne m h g = record {
    new = row ∷ g.new;
    has_storage =
        g.has_storage
        ∙ ap (λ rows. rows ++ g.new) (storage_of-added role row w')
        ∙ append_assoc (storage_of V role (load V w')) (row ∷ []) g.new
        ∙ ap (λ c. storage_of V role c ++ (row ∷ g.new)) h;
    others = g.others ∙ lookup-insert_ne other role _ (load V w') ne ∙ ap (lookup other) h;
    fit = (m, g.fit);
    ends = elim g.ends [ inl (e, l) ↦ inl (e, ap suc l) | inr (x, e, l) ↦ inr (x, e, omega arith) ];
  }

  -- However it ends, `create` has only ever added whole instances to the file: one after the other
  -- for the role, each with the mount points and devices of its specifications, all `n` of them if
  -- it succeeds and fewer if it raises. What is on record for other roles stays.
  pub create-Grows :
      (role other zone : String) (n : ℕ) (spec : Dict String (List VolumeSpec)) (w : World V)
      (specs : List VolumeSpec)
      → lookup role spec ≡ some specs
      → other ≢ role
      → Grows role other specs n w (create V role n zone spec w)
  create-Grows role other zone zero spec w specs h ne =
      subst (Grows role other specs 0 w) (sym (create-zero role zone spec w)) (record {
        new = [];
        has_storage = sym (append-nil _);
        others = refl;
        fit = tt;
        ends = inl (refl, refl);
      })
  create-Grows role other zone (suc n) spec w specs h ne =
      elim (Result-cases (create_volumes V zone specs w).0) [
        | inr (e, k) ↦
            subst (Grows role other specs (suc n) w)
              (sym (create-raised role zone n spec w specs e h k))
              (Grows-raised role other specs n w e _ (load-create_volumes zone specs w))
        | inl (row, k) ↦
            subst (Grows role other specs (suc n) w)
              (sym (create-next role zone n spec w specs row h k))
              (Grows-next role other specs n w (create_volumes V zone specs w).1 row _ ne
                (create_volumes-mounts zone specs w row k) (load-create_volumes zone specs w)
                (create-Grows role other zone n spec _ specs h ne))
      ]
