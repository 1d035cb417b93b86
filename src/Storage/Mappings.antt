-- ===== src/Storage/Mappings.antt =====
-- What the instances of a role are told of their volumes (hadoop/cloud/providers/ec2.py) once `create`
-- has made them.
use mathlib.Core.List.{append_assoc}
use ec2_wrappers.Prelude.{ℕ, suc, ◌≡◌, ◌≢◌, ◌⊎◌, refl, sym, ap, ◌∙◌, String, Option, some}
use ec2_wrappers.Prelude.{List, [], ◌∷◌, ◌++◌, ok, arith, All, length, inl, inr, Bool-cases}
use ec2_wrappers.Prelude.{string_eq, ◌==◌, if◌then◌else◌, eq_of_==, ne_of_==}
use ec2_wrappers.Prelude.Dict.{Dict, lookup, insert, lookup-insert}
use ec2_wrappers.Storage.{
  Volumes, World, VolumeSpec, MountableVolume, load, storage_of, create, mapped, concat,
  mappings_string, get_mappings_string_for_role, get_instance_storage_for_role,
}
use ec2_wrappers.Storage.Kept.{wanted, mounts, Grows, create-Grows}

-- The device that a list of mount points and devices names last for a mount point, and `o` where it
-- names none.
abbrev pub latest : String → List (String × String) → Option String → Option String
latest p [] o = o
latest p ((q, device) ∷ pairs) o = latest p pairs (if p == q then some device else o)

-- Either the list names the mount point, or it changes nothing.
latest-cases :
    (p : String) (pairs : List (String × String))
    → ((device : String) × ((o : Option String) → latest p pairs o ≡ some device))
      ⊎ ((o : Option String) → latest p pairs o ≡ o)
latest-cases p [] = inr (λ o. refl)
latest-cases p ((q, device) ∷ pairs) = elim (latest-cases p pairs) [
  | inl (last, h) ↦ inl (last, λ o. h (if p == q then some device else o))
  | inr h ↦ elim (Bool-cases (p == q)) [
    | inl b ↦ inl (device, λ o. rw b (h (some device)))
    | inr b ↦ inr (λ o. rw b (h o))
  ]
]

latest-latest :
    (p : String) (pairs : List (String × String)) (o : Option String)
    → latest p pairs (latest p pairs o) ≡ latest p pairs o
latest-latest p pairs o = elim (latest-cases p pairs) [
  | inl (last, h) ↦ h (latest p pairs o) ∙ sym (h o)
  | inr h ↦ h (latest p pairs o)
]

lookup-mapped :
    (p : String) (row : List MountableVolume) (d : Dict String String)
    → lookup p (mapped row d) ≡ latest p (mounts row) (lookup p d)
unfolding mapped
lookup-mapped p [] d = refl
lookup-mapped p (mv ∷ row) d =
    lookup-mapped p row (insert mv.mount_point mv.device d)
    ∙ ap (latest p (mounts row)) (lookup-insert p mv.mount_point mv.device d)

latest-append :
    (p : String) (xs ys : List MountableVolume) (o : Option String)
    → latest p (mounts (xs ++ ys)) o ≡ latest p (mounts ys) (latest p (mounts xs) o)
latest-append p [] ys o = refl
latest-append p (x ∷ xs) ys o =
    latest-append p xs ys (if p == x.mount_point then some x.device else o)

concat-append {ℓ} :
    {A : Type ℓ} (xss yss : List (List A)) → concat (xss ++ yss) ≡ concat xss ++ concat yss
concat-append [] yss = refl
concat-append (xs ∷ xss) yss =
    ap (λ zs. xs ++ zs) (concat-append xss yss) ∙ sym (append_assoc xs (concat xss) (concat yss))

-- Instances with the same mount points and devices name what one of them does.
latest-concat :
    (p : String) (pairs : List (String × String)) (row : List MountableVolume)
    (rows : List (List MountableVolume)) (o : Option String)
    → mounts row ≡ pairs
    → All (λ r. mounts r ≡ pairs) rows
    → latest p (mounts (concat (row ∷ rows))) o ≡ latest p pairs o
latest-concat p pairs row [] o m fit = latest-append p row [] o ∙ ap (λ ps. latest p ps o) m
latest-concat p pairs row (next ∷ rows) o m (m', fit) =
    latest-append p row (concat (next ∷ rows)) o
    ∙ ap (λ ps. latest p (mounts (concat (next ∷ rows))) (latest p ps o)) m
    ∙ latest-concat p pairs next rows (latest p pairs o) m' fit
    ∙ latest-latest p pairs o

another : (role : String) → (other : String) × (other ≢ role)
unfolding string_eq
another role = elim (Bool-cases ("" == role)) [
  | inl b ↦ ("a", λ h. ne_of_== "a" "" refl (h ∙ sym (eq_of_== "" role b)))
  | inr b ↦ ("", ne_of_== "" role b)
]

module _ (V : Volumes) where
  -- The mount points and devices on record for a role, as the program collects them.
  abbrev pub mappings : String → World V → Dict String String
  mappings role w = mapped (concat (storage_of V role (load V w))) []

  mappings_grown :
      (p role : String) (pairs : List (String × String)) (n : ℕ) (w w' : World V)
      (new : List (List MountableVolume))
      → storage_of V role (load V w') ≡ storage_of V role (load V w) ++ new
      → All (λ row. mounts row ≡ pairs) new
      → length new ≡ suc n
      → lookup p (mappings role w') ≡ latest p pairs (lookup p (mappings role w))
  mappings_grown p role pairs n w w' [] h fit l = absurd (omega arith)
  mappings_grown p role pairs n w w' (row ∷ rows) h (m, fit) l =
      let old = concat (storage_of V role (load V w)) in
      ap (λ s. lookup p (mapped (concat s) [])) h
      ∙ ap (λ vs. lookup p (mapped vs []))
          (concat-append (storage_of V role (load V w)) (row ∷ rows))
      ∙ lookup-mapped p (old ++ concat (row ∷ rows)) []
      ∙ latest-append p old (concat (row ∷ rows)) _
      ∙ ap (latest p (mounts (concat (row ∷ rows)))) (sym (lookup-mapped p old []))
      ∙ latest-concat p pairs row rows _ m fit

  created :
      (p role other : String) (n : ℕ) (w : World V) (specs : List VolumeSpec) (out : _)
      → Grows V role other specs (suc n) w out
      → out.0 ≡ ok tt
      → lookup p (mappings role out.1) ≡ latest p (wanted specs) (lookup p (mappings role w))
  created p role other n w specs out g success = elim g.ends [
    | inl (e, l) ↦ mappings_grown p role (wanted specs) n w out.1 g.new g.has_storage g.fit l
    | inr (e, k, l) ↦ absurd (cc (k, success))
  ]

  get_mappings_string_for_role_lem :
      (role : String) (w : World V)
      → get_mappings_string_for_role V role w ≡ (ok (mappings_string (mappings role w)), w)
  unfolding get_mappings_string_for_role get_instance_storage_for_role
  get_mappings_string_for_role_lem role w = ground arith

  -- Once `create` has succeeded for at least one instance, the text that the instances of the role
  -- are given has, for every mount point of the specifications, the device that they name last for
  -- it, whatever was on record for the role; the other mount points keep the devices on record.
  pub create-mappings :
      (role zone : String) (n : ℕ) (spec : Dict String (List VolumeSpec)) (w : World V)
      (specs : List VolumeSpec)
      → lookup role spec ≡ some specs
      → (create V role (suc n) zone spec w).0 ≡ ok tt
      → let after = (create V role (suc n) zone spec w).1 in
        (get_mappings_string_for_role V role after
          ≡ (ok (mappings_string (mappings role after)), after))
        × ((p : String)
            → lookup p (mappings role after) ≡ latest p (wanted specs) (lookup p (mappings role w)))
  create-mappings role zone n spec w specs h success =
      let (other, ne) = another role in
      (
        get_mappings_string_for_role_lem role _,
        λ p.
            created p role other n w specs _
              (create-Grows V role other zone (suc n) spec w specs h ne) success,
      )
