-- ===== src/Accounts/Lifecycle/Outcome.antt =====
-- What making and deleting a user (subaccounts.py) come to.
use ec2_wrappers.Prelude.{String, none, Result, Exn, ok, raised, ◌≡◌, arith}
use ec2_wrappers.Prelude.{
  string_eq, ◌==◌, if◌then◌else◌, inl, inr, Result-cases, false, attribute_error,
}
use ec2_wrappers.Prelude.Dict.{lookup, lookup-erase}
use ec2_wrappers.Accounts.{Services, World, user_exists}
use ec2_wrappers.Accounts.Lifecycle.{
  iam_delete_user, delete_user, make_user, random_password, get_user_policy,
}

-- `delete_user` takes the user off the table of users and leaves everything else as it was: the user
-- and all its rights in IAM, and the rows of its access keys and key pairs.
pub delete_user_lem :
    (S : Services) (name other : String) (w : World S)
    → let after = (delete_user S name w).1 in
      ((user_exists S name after).0 ≡ ok false)
      × (lookup other after.tables.users
          ≡ (if other == name then none else lookup other w.tables.users))
      × (after.cloud ≡ w.cloud)
      × (after.tables.access_keys ≡ w.tables.access_keys)
      × (after.tables.ssh_keys ≡ w.tables.ssh_keys)
unfolding delete_user iam_delete_user user_exists
delete_user_lem S name other w =
    ground (arith, lookup-erase name name w.tables.users, lookup-erase other name w.tables.users)

-- `make_user` never makes a user: it raises, and the tables are as they were.
pub make_user_lem :
    (S : Services) (normalise : String → Result String) (now account name : String) (w : World S)
    → ((e : Exn) × ((make_user S normalise now account name w).0 ≡ raised e))
      × ((make_user S normalise now account name w).1.tables ≡ w.tables)
unfolding make_user iam_delete_user random_password
make_user_lem S normalise now account name w = elim (Result-cases (S.create_user name w.cloud).0) [
  | inr (e, h) ↦ ((e, ground arith), ground arith)
  | inl (a, h) ↦
      let c1 = (S.create_user name w.cloud).1 in
      elim (Result-cases (S.add_user_to_group "students" name c1).0) [
        | inr (e, k) ↦ ((e, ground arith), ground arith)
        | inl (b, k) ↦
            let c2 = (S.add_user_to_group "students" name c1).1 in
            elim (Result-cases (normalise (get_user_policy name))) [
              | inr (e, n) ↦ ((e, ground arith), ground arith)
              | inl (policy, n) ↦ elim (Result-cases (S.put_user_policy name policy c2).0) [
                | inr (e, p) ↦ ((e, ground arith), ground arith)
                | inl (d, p) ↦ ((attribute_error, ground arith), ground arith)
              ]
            ]
      ]
]
