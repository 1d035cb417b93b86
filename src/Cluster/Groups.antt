-- ===== src/Cluster/Groups.antt =====
-- The security groups that a cluster has before its instances are launched
-- (hadoop/cloud/providers/ec2.py).
use ec2_wrappers.Prelude.{ℕ, true, String, ◌<>◌, List, [], ◌∷◌, ◌++◌, ok}
use ec2_wrappers.Prelude.{◌≡◌, refl, arith, ap, ◌∙◌, contains, contains-append, ==_of_eq}
use ec2_wrappers.Prelude.{inl, inr, Bool-cases, Result-cases, string_eq}
use ec2_wrappers.Cluster.{
  Compute, is_role_name, role_group, check_role_name, group_name_for_role, create_cluster_group,
  create_groups,
}

-- Creating a security group adds its name to those of the account, and authorizing adds none.
pub record IsLawful (C : Compute) : Type 0 where
  pub creates :
      (name text : String) (c : C.Cloud)
      → (C.create_security_group name text c).0 ≡ ok tt
      → C.get_all_security_groups (C.create_security_group name text c).1
        ≡ C.get_all_security_groups c ++ (name ∷ [])
  pub authorizes :
      (name other : String) (c : C.Cloud)
      → C.get_all_security_groups (C.authorize_group name other c).1 ≡ C.get_all_security_groups c
  pub opens :
      (name : String) (a b : ℕ) (net : String) (c : C.Cloud)
      → C.get_all_security_groups (C.authorize_ports name a b net c).1 ≡ C.get_all_security_groups c

contains_last : (xs : List String) (x : String) → contains (xs ++ (x ∷ [])) x ≡ true
contains_last [] x = rw (==_of_eq x x refl)
contains_last (y ∷ xs) x = ground (arith, contains_last xs x)

module _ (C : Compute) (L : IsLawful C) where
  abbrev groups : C.Cloud → List String
  groups = C.get_all_security_groups

  create_cluster_group_lem :
      (name : String) (c : C.Cloud)
      → (create_cluster_group C name c).0 ≡ ok tt
      → groups (create_cluster_group C name c).1 ≡ groups c ++ (name ∷ [])
  unfolding create_cluster_group
  create_cluster_group_lem name c h =
      let text = "Cluster (" <> (name <> ")") in
      let c1 = (C.create_security_group name text c).1 in
      let c2 = (C.authorize_group name name c1).1 in
      elim (Result-cases (C.create_security_group name text c).0) [
        | inr (e, k) ↦ ground arith
        | inl (tt, k) ↦ elim (Result-cases (C.authorize_group name name c1).0) [
          | inr (e, l) ↦ ground arith
          | inl (tt, l) ↦ ground (
            arith,
            L.creates name text c k,
            L.authorizes name name c1,
            L.opens name 22 22 "0.0.0.0/0" c2,
          )
        ]
      ]

  abbrev role_text : String → String → String
  role_text name role = "Role " <> (role <> (" (" <> (name <> ")")))

  -- A step keeps the groups of the account and leaves one that it is named for.
  record Adds (name : String) (before after : List String) : Type 0 where
    has_name : contains after name ≡ true
    keeps : (x : String) → contains before x ≡ true → contains after x ≡ true

  Adds-last :
      (name : String) (before after : List String)
      → after ≡ before ++ (name ∷ [])
      → Adds name before after
  Adds-last name before after h = record {
    has_name = ap (λ xs. contains xs name) h ∙ contains_last before name;
    keeps = λ x k. ap (λ xs. contains xs x) h ∙ contains-append before (name ∷ []) x ∙ rw k refl;
  }

  -- For a role whose name is valid, `create_groups` leaves, unless it raises, a group of the cluster
  -- and a group of the role, whichever of them there were before, and no group is lost.
  pub create_groups_lem :
      (name role other : String) (c : C.Cloud)
      → is_role_name role ≡ true
      → (create_groups C name role c).0 ≡ ok tt
      → contains (groups c) other ≡ true
      → let after = groups (create_groups C name role c).1 in
        (contains after name ≡ true)
        × (contains after (role_group name role) ≡ true)
        × (contains after other ≡ true)
  unfolding create_groups check_role_name group_name_for_role
  create_groups_lem name role other c v h o =
      let group = role_group name role in
      let text = role_text name role in
      let c1 = (create_cluster_group C name c).1 in
      elim (Bool-cases (contains (groups c) name)) [
        | inl b ↦ elim (Bool-cases (contains (groups c) group)) [
          | inl d ↦ (ground arith, ground arith, ground arith)
          | inr d ↦
              let k : (C.create_security_group group text c).0 ≡ ok tt = ground arith in
              let a = Adds-last group (groups c) _ (L.creates group text c k) in
              (
                ground (arith, a.keeps name b),
                ground (arith, a.has_name),
                ground (arith, a.keeps other o),
              )
        ]
        | inr b ↦ elim (Result-cases (create_cluster_group C name c).0) [
          | inr (e, k) ↦ absurd (ground arith)
          | inl (tt, k) ↦
              let a = Adds-last name (groups c) _ (create_cluster_group_lem name c k) in
              elim (Bool-cases (contains (groups c) group)) [
                | inl d ↦ (
                  ground (arith, a.has_name),
                  ground (arith, a.keeps group d),
                  ground (arith, a.keeps other o),
                )
                | inr d ↦
                    let l : (C.create_security_group group text c1).0 ≡ ok tt = ground arith in
                    let z = Adds-last group (groups c1) _ (L.creates group text c1 l) in
                    (
                      ground (arith, z.keeps name a.has_name),
                      ground (arith, z.has_name),
                      ground (arith, z.keeps other (a.keeps other o)),
                    )
              ]
        ]
      ]
