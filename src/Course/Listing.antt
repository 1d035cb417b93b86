-- ===== src/Course/Listing.antt =====
-- The clusters that a user of the course (cs61cec2.py) is shown.
use ec2_wrappers.Prelude.{Bool, false, String, none, some, List, [], ◌∷◌, select}
use ec2_wrappers.Prelude.{ok, ◌≡◌, arith, Result-cases, inl, inr, string_eq}
use ec2_wrappers.Prelude.Text.{starts_with}
use ec2_wrappers.Ec2.{Reservation}
use ec2_wrappers.Cluster
use ec2_wrappers.Cluster.{clusters_of}
use ec2_wrappers.Course.{get_clusters_with_role}

-- The key pair of the first instance of a reservation begins with the name of the user.
abbrev pub is_own : String → Reservation → Bool
is_own username res = elim res.instances [
  | [] ↦ false
  | i ∷ is ↦ elim i.key_name [ none ↦ false | some key ↦ starts_with key username ]
]

-- Where the course lists clusters at all, the list is the one that Ec2Cluster makes of the
-- reservations whose first instance has a key pair beginning with the name of the user.
pub get_clusters_with_role-is_own :
    (username role state : String) (reservations : List Reservation) (clusters : List String)
    → get_clusters_with_role username role state reservations ≡ ok clusters
    → Cluster.get_clusters_with_role role state (select (is_own username) reservations)
      ≡ ok clusters
unfolding get_clusters_with_role Cluster.get_clusters_with_role
get_clusters_with_role-is_own username role state [] clusters h = h
get_clusters_with_role-is_own username role state (res ∷ rest) clusters h =
    elim (Result-cases (get_clusters_with_role username role state rest)) [
      | inl (more, k) ↦
          let ih = get_clusters_with_role-is_own username role state rest more k in
          ground (arith, h, k, ih)
      | inr (e, k) ↦ absurd (ground (arith, h, k))
    ]
