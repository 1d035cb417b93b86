-- ===== src/Cluster/Roles.antt =====
-- The names of security groups (hadoop/cloud/providers/ec2.py) stand for a cluster and a role.
use ec2_wrappers.Prelude.{
  List, [], ◌∷◌, contains, select, Bool, true, false, String, ◌<>◌, Char, arith, ◌≡◌, refl, sym, ap,
  ◌∙◌, ◌||◌,
}
use ec2_wrappers.Prelude.{
  char_eq, string_eq, ◌==◌, inl, inr, Bool-cases, eq_of_==, ==_of_eq, nat_eq,
}
use ec2_wrappers.Prelude.Text.{has_char, ends_with}
use ec2_wrappers.Cluster.{
  is_role_char, is_role_name, is_role_end, role_group, is_end, is_group_of, is_group_end,
  cluster_of_group, is_role_group, groups_for_cluster,
}

dash-not : is_role_char "-" ≡ false
unfolding is_role_char char_eq
dash-not = refl

not_dash : (c : Char) → is_role_char c ≡ true → ("-" == c) ≡ false
not_dash c h = elim (Bool-cases ("-" == c)) [
  | inr b ↦ b
  | inl b ↦ absurd (cc (sym dash-not ∙ ap is_role_char (eq_of_== "-" c b) ∙ h))
]

dash_newline : ◌==◌ {A = Char} "-" "\n" ≡ false
unfolding char_eq
dash_newline = refl

newline_dash : (c : Char) → ("\n" == c) ≡ true → ("-" == c) ≡ false
newline_dash c h = ap (λ x. "-" == x) (sym (eq_of_== "\n" c h)) ∙ dash_newline

has_char-end : (s : String) → is_role_end s ≡ true → has_char "-" s ≡ false
unfolding has_char is_role_end is_end
has_char-end String.[] h = refl
has_char-end (String.◌∷◌ c String.[]) h = ground (arith, not_dash c, newline_dash c)
has_char-end (String.◌∷◌ c (String.◌∷◌ d s)) h =
    ground (arith, not_dash c, newline_dash c, has_char-end (String.◌∷◌ d s))

-- A role has no dash in it.
has_char-role : (role : String) → is_role_name role ≡ true → has_char "-" role ≡ false
unfolding is_role_name has_char
has_char-role String.[] h = refl
has_char-role (String.◌∷◌ c s) h = ground (arith, not_dash c, has_char-end s)

tail : String → String
tail String.[] = ""
tail (String.◌∷◌ c s) = s

head : Char → String → Char
head x String.[] = x
head x (String.◌∷◌ c s) = c

has_char-dash : (a r : String) → has_char "-" (a <> ("-" <> r)) ≡ true
unfolding has_char
has_char-dash String.[] r = rw (==_of_eq {A = Char} "-" "-" refl)
has_char-dash (String.◌∷◌ c a) r = ground (arith, has_char-dash a r)

or_true : (b : Bool) → (b || true) ≡ true
or_true true = refl
or_true false = refl

dash_split :
    (a b r s : String)
    → has_char "-" r ≡ false
    → has_char "-" s ≡ false
    → a <> ("-" <> r) ≡ b <> ("-" <> s)
    → (a ≡ b) × (r ≡ s)
unfolding tail head
dash_split String.[] String.[] r s hr hs h = (refl, ap tail h)
dash_split String.[] (String.◌∷◌ d b) r s hr hs h =
    absurd (cc (sym hr ∙ ap (has_char "-") (ap tail h) ∙ has_char-dash b s))
dash_split (String.◌∷◌ c a) String.[] r s hr hs h =
    absurd (cc (sym hs ∙ ap (has_char "-") (sym (ap tail h)) ∙ has_char-dash a r))
dash_split (String.◌∷◌ c a) (String.◌∷◌ d b) r s hr hs h =
    let (e, f) = dash_split a b r s hr hs (ap tail h) in
    (ap (String.◌∷◌ c) e ∙ ap (λ x. String.◌∷◌ x b) (ap (head c) h), f)

-- The group of a role tells the cluster and the role: no two clusters share one, whatever dashes
-- their names have.
pub role_group-injective :
    (a b r s : String)
    → is_role_name r ≡ true
    → is_role_name s ≡ true
    → role_group a r ≡ role_group b s
    → (a ≡ b) × (r ≡ s)
unfolding role_group
role_group-injective a b r s hr hs h =
    dash_split a b r s (has_char-role r hr) (has_char-role s hs) h

ends_with_self : (s t : String) → ends_with (s <> t) t ≡ true
unfolding ends_with
ends_with_self String.[] String.[] = ==_of_eq {A = String} "" "" refl
ends_with_self String.[] (String.◌∷◌ d t) =
    rw (==_of_eq (String.◌∷◌ d t) (String.◌∷◌ d t) refl) refl
ends_with_self (String.◌∷◌ c s) t = rw (ends_with_self s t) (or_true (t == String.◌∷◌ c (s <> t)))

cluster_of_group-dash :
    (role name : String)
    → has_char "-" role ≡ false
    → cluster_of_group role (name <> ("-" <> role)) ≡ name
unfolding cluster_of_group
cluster_of_group-dash role String.[] h = rw (==_of_eq ("-" <> role) ("-" <> role) refl) refl
cluster_of_group-dash role (String.◌∷◌ c name) h =
    elim (Bool-cases (("-" <> role) == String.◌∷◌ c (name <> ("-" <> role)))) [
      | inl b ↦ rw b (dash_split "" (String.◌∷◌ c name) role role h h (eq_of_== _ _ b)).0
      | inr b ↦ rw b (ap (String.◌∷◌ c) (cluster_of_group-dash role name h))
    ]

-- From the group of a role `get_clusters_with_role` reads the name of its cluster.
pub cluster_of_group-role_group :
    (name role : String)
    → is_role_name role ≡ true
    → (is_role_group role (role_group name role) ≡ true)
      × (cluster_of_group role (role_group name role) ≡ name)
unfolding role_group is_role_group
cluster_of_group-role_group name role h =
    (ends_with_self name ("-" <> role), cluster_of_group-dash role name (has_char-role role h))

is_group_of-role_group :
    (name role : String) → is_role_name role ≡ true → is_group_of name (role_group name role) ≡ true
unfolding role_group is_group_of is_group_end
is_group_of-role_group String.[] role h = ground (arith, ==_of_eq {A = Char} "-" "-" refl)
is_group_of-role_group (String.◌∷◌ c name) role h =
    ground (arith, is_group_of-role_group name role h)

contains-select :
    (p : String → Bool) (x : String) (xs : List String)
    → p x ≡ true
    → contains xs x ≡ true
    → contains (select p xs) x ≡ true
contains-select p x [] h k = k
contains-select p x (y ∷ xs) h k = elim (Bool-cases (x == y)) [
  | inl b ↦ rw (ap p (sym (eq_of_== x y b)) ∙ h) (rw b refl)
  | inr b ↦ elim (Bool-cases (p y)) [
    | inl q ↦ rw q (rw b (contains-select p x xs h (ground arith)))
    | inr q ↦ rw q (contains-select p x xs h (ground arith))
  ]
]

-- The groups that `delete` deletes with a cluster include those of its roles. The group of another
-- cluster, whose name is the name of this one, a dash and a role, is no different.
pub groups_for_cluster-role_group :
    (name role : String) (names : List String)
    → is_role_name role ≡ true
    → contains names name ≡ true
    → contains names (role_group name role) ≡ true
    → contains (groups_for_cluster name names) (role_group name role) ≡ true
unfolding groups_for_cluster
groups_for_cluster-role_group name role names h k l =
    rw k (contains-select (is_group_of name) _ names (is_group_of-role_group name role h) l)
