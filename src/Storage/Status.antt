-- ===== src/Storage/Status.antt =====
-- `print_status` of Ec2Storage (hadoop/cloud/providers/ec2.py), less the text that it prints.
use ec2_wrappers.Prelude.{String, Option, none, some, List, [], ◌∷◌, Result, ok, raised, lift}
use ec2_wrappers.Prelude.{
  ◌>>=◌, ◌>>◌, for_each, Bool, true, false, not, any, is_empty, Exn, attribute_error,
}
use ec2_wrappers.Prelude.{Bool-cases, Result-cases, inl, inr, sym, ap}
use mathlib.Core.Path.{subst}
use ec2_wrappers.Prelude.{◌≡◌, refl, arith, string_eq}
use ec2_wrappers.Prelude.Dict.{Dict, keys}
use ec2_wrappers.Storage.{
  load, World, Volumes, Action, Volume, MountableVolume, concat, volume_of, get_roles,
  get_instance_storage_for_role, get_ec2_volumes_dict, storage_of, ids_of, volumes_dict,
}

-- `_print_volume`. The volumes of boto have a `zone` and no `availabilityZone`, which is read here.
unfoldable pub print_volume : Volume → Result (Unit {0})
print_volume v = raised attribute_error

-- `ec2_volumes[mv.volume_id]` for each volume in turn, which is printed.
unfoldable pub print_volumes : Dict String Volume → List MountableVolume → Result (Unit {0})
print_volumes vols [] = ok tt
print_volumes vols (mv ∷ mvs) = elim (volume_of vols mv.volume_id) [
  | raised e ↦ raised e
  | ok v ↦ elim (print_volume v) [ raised e ↦ raised e | ok _ ↦ print_volumes vols mvs ]
]

module _ (V : Volumes) where
  unfoldable pub print_role : String → Action V (Unit {0})
  print_role role = do
    rows ← get_instance_storage_for_role V role
    vols ← get_ec2_volumes_dict V rows
    lift (print_volumes vols (concat rows))

  unfoldable pub print_roles : List String → Action V (Unit {0})
  print_roles roles = for_each roles print_role

  -- `roles == None` stands for the roles of the file.
  unfoldable pub print_status : Option (List String) → Action V (Unit {0})
  print_status none = do roles ← get_roles V; print_roles roles
  print_status (some roles) = print_roles roles

  print_role-same : (role : String) (w : World V) → (print_role role w).1 ≡ w
  unfolding print_role get_instance_storage_for_role get_ec2_volumes_dict
  print_role-same role w = ground arith

  print_roles-same : (roles : List String) (w : World V) → (print_roles roles w).1 ≡ w
  unfolding print_roles
  print_roles-same [] w = refl
  print_roles-same (role ∷ roles) w =
      ground (arith, print_role-same role w, print_roles-same roles w)

  -- Printing changes nothing.
  pub print_status-same :
      (roles : Option (List String)) (w : World V) → (print_status roles w).1 ≡ w
  unfolding print_status get_roles
  print_status-same none w = print_roles-same (keys (load V w)) w
  print_status-same (some roles) w = print_roles-same roles w

  -- Whether a volume is recorded for one of the roles.
  abbrev pub any_recorded : List String → World V → Bool
  any_recorded roles w = any (λ role. not (is_empty (concat (storage_of V role (load V w))))) roles

  -- A call that raises and changes nothing.
  abbrev pub Raises : World V → Result (Unit {0}) × World V → Type 0
  Raises w r = (e : Exn) × (r ≡ (raised e, w))

  print_volumes_raises :
      (vols : Dict String Volume) (mvs : List MountableVolume)
      → is_empty mvs ≡ false
      → (e : Exn) × (print_volumes vols mvs ≡ raised e)
  unfolding print_volumes print_volume
  print_volumes_raises vols [] h = absurd (cc h)
  print_volumes_raises vols (mv ∷ mvs) h = elim (Result-cases (volume_of vols mv.volume_id)) [
    | inl (v, k) ↦ (attribute_error, ground arith)
    | inr (e, k) ↦ (e, ground arith)
  ]

  role-Raises :
      (role : String) (w : World V)
      → is_empty (concat (storage_of V role (load V w))) ≡ false
      → Raises w (print_role role w)
  unfolding print_role get_instance_storage_for_role get_ec2_volumes_dict
  role-Raises role w h =
      let rows = storage_of V role (load V w) in
      elim (Result-cases (V.get_all_volumes (ids_of rows) w.cloud)) [
        | inr (e, k) ↦ (e, ground arith)
        | inl (volumes, k) ↦
            let (e, p) = print_volumes_raises (volumes_dict volumes []) (concat rows) h in
            (e, ground (arith, p))
      ]

  passes :
      (q : Result (Unit {0}) × World V) (w : World V) (f : Action V (Unit {0}))
      → q.1 ≡ w
      → Raises w (f w)
      → Raises w (((λ _. q) >> f) w)
  passes (ok a, v) w f e r = subst (λ u. Raises w (f u)) (sym e) r
  passes (raised x, v) w f e r = (x, ap (λ u. (raised x, u)) e)

  ends :
      (q : Result (Unit {0}) × World V) (w : World V) (f : Action V (Unit {0}))
      → Raises w q
      → Raises w (((λ _. q) >> f) w)
  ends (ok a, v) w f (x, e) = absurd (cc (ap (λ q. q.0) e))
  ends (raised y, v) w f (x, e) = (x, e)

  roles-Raises :
      (roles : List String) (w : World V)
      → any_recorded roles w ≡ true
      → Raises w (for_each roles print_role w)
  roles-Raises [] w h = absurd (cc h)
  roles-Raises (role ∷ roles) w h =
      elim (Bool-cases (is_empty (concat (storage_of V role (load V w))))) [
        | inr b ↦ ends (print_role role w) w (for_each roles print_role) (role-Raises role w b)
        | inl b ↦
            passes (print_role role w) w (for_each roles print_role) (print_role-same role w)
              (roles-Raises roles w (ground (arith, b, h)))
      ]

  -- Where the file records a volume, the printing raises, and changes nothing.
  pub print_status-Raises :
      (w : World V) → any_recorded (keys (load V w)) w ≡ true → Raises w (print_status none w)
  unfolding print_status print_roles get_roles
  print_status-Raises w h = roles-Raises (keys (load V w)) w h
