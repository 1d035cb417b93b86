-- ===== src/Accounts/Totals.antt =====
-- How the counted cost of a user (subaccounts.py) grows with a launch.
use mathlib.Core.List.{append-nil}
use ec2_wrappers.Prelude.{ℕ, ◌+◌, ◌*◌, ◌≡◌, ◌≢◌, refl, ap, true, String, ◌<>◌, some}
use ec2_wrappers.Prelude.{List, [], ◌∷◌, ◌++◌, Result, ok, raised, arith, All, length, select}
use ec2_wrappers.Prelude.{
  if◌then◌else◌, Bool-cases, Option-cases, Result-cases, inl, inr, select-append,
}
use ec2_wrappers.Prelude.{string_eq, ==_of_ne}
use ec2_wrappers.Prelude.Text.{starts_with}
use ec2_wrappers.Ec2.{Instance, all_of}
use ec2_wrappers.Accounts.{
  Services, World, User, instance_cost, sum_costs, with_key_prefix, is_running, counted,
  cost_instances, running_instances,
}

-- The cost of the instances of a list that count for a user.
pub total : String → List Instance → Result ℕ
total user is = elim (counted user is) [ ok mine ↦ sum_costs mine | raised e ↦ raised e ]

pub cost_instances_lem :
    (S : Services) (u : User) (w : World S)
    → u.connected ≡ true
    → (cost_instances S u w).0
      ≡ total u.user_name (all_of (S.get_all_instances u.user_name w.cloud))
unfolding cost_instances running_instances total
cost_instances_lem S u w h = ground arith

-- New instances of one type under one key, none of them terminated.
pub record IsFresh (type key : String) (i : Instance) : Type 0 where
  pub has_key : i.key_name ≡ some key
  pub has_type : i.instance_type ≡ type
  pub alive : i.state ≢ "terminated"

sum_costs-append :
    (xs ys : List Instance) (a b : ℕ)
    → sum_costs xs ≡ ok a
    → sum_costs ys ≡ ok b
    → sum_costs (xs ++ ys) ≡ ok (a + b)
unfolding sum_costs
sum_costs-append [] ys a b h k = ground arith
sum_costs-append (x ∷ xs) ys a b h k = elim (Result-cases (sum_costs xs)) [
  | inl (c, e) ↦ ground (arith, sum_costs-append xs ys c b e k)
  | inr (x', e) ↦ ground arith
]

sum_costs-fresh :
    (type key : String) (cost : ℕ) (new : List Instance)
    → All (IsFresh type key) new
    → instance_cost type ≡ ok cost
    → sum_costs new ≡ ok (cost * length new)
unfolding sum_costs
sum_costs-fresh type key cost [] f h = ground arith
sum_costs-fresh type key cost (i ∷ new) (f, fs) h =
    rw (f.has_type, sum_costs)
      (rw (h, sum_costs-fresh type key cost new fs h) (ap ok (omega arith)))

with_key_prefix-fresh :
    (prefix type key : String) (new : List Instance)
    → All (IsFresh type key) new
    → with_key_prefix prefix new ≡ ok (if starts_with key prefix then new else [])
unfolding with_key_prefix
with_key_prefix-fresh prefix type key [] f = ground arith
with_key_prefix-fresh prefix type key (i ∷ new) (f, fs) =
    ground (arith, f.has_key, with_key_prefix-fresh prefix type key new fs)

with_key_prefix-append :
    (prefix type key : String) (is mine new : List Instance)
    → All (IsFresh type key) new
    → with_key_prefix prefix is ≡ ok mine
    → with_key_prefix prefix (is ++ new) ≡ ok (mine ++ (if starts_with key prefix then new else []))
unfolding with_key_prefix
with_key_prefix-append prefix type key [] mine new f h =
    ground (arith, with_key_prefix-fresh prefix type key new f)
with_key_prefix-append prefix type key (i ∷ is) mine new f h = elim (Option-cases i.key_name) [
  | inl e ↦ ground arith
  | inr (k, e) ↦ elim (Result-cases (with_key_prefix prefix is)) [
    | inl (more, m) ↦ ground (arith, with_key_prefix-append prefix type key is more new f m)
    | inr (x, m) ↦ ground arith
  ]
]

select-fresh :
    (type key : String) (new : List Instance)
    → All (IsFresh type key) new
    → select is_running new ≡ new
unfolding is_running
select-fresh type key [] f = refl
select-fresh type key (i ∷ new) (f, fs) =
    rw (==_of_ne _ _ f.alive) (rw (select-fresh type key new fs))

-- The new instances count for a user exactly if their key begins with the user's name and a dash.
pub total-fresh :
    (user type key : String) (cost old : ℕ) (is new : List Instance)
    → All (IsFresh type key) new
    → instance_cost type ≡ ok cost
    → total user is ≡ ok old
    → total user (is ++ new)
      ≡ ok (old + (if starts_with key (user <> "-") then cost * length new else 0))
unfolding total counted
total-fresh user type key cost old is new f hc h =
    elim (Result-cases (with_key_prefix (user <> "-") is)) [
      | inl (mine, m) ↦ elim (Bool-cases (starts_with key (user <> "-"))) [
        | inl b ↦ ground (
          arith,
          with_key_prefix-append (user <> "-") type key is mine new f m,
          select-append is_running mine new,
          select-fresh type key new f,
          sum_costs-append (select is_running mine) new old (cost * length new),
          sum_costs-fresh type key cost new f hc,
        )
        | inr b ↦
            ground (
              arith,
              append-nil mine,
              with_key_prefix-append (user <> "-") type key is mine new f m,
            )
      ]
      | inr (e, m) ↦ ground arith
    ]
