-- ===== src/Accounts/Scripts/Closing.antt =====
-- What kill_all_accounts.py takes away.
use ec2_wrappers.Prelude.{String, List, [], ◌∷◌, Result, ok, none, name_error, raised}
use ec2_wrappers.Prelude.{
  ◌≡◌, refl, arith, for_each, string_eq, ◌==◌, contains, ◌&&◌, if◌then◌else◌,
}
use ec2_wrappers.Prelude.Dict.{lookup}
use ec2_wrappers.Accounts.{Services, World}
use ec2_wrappers.Accounts.Lifecycle.{delete_user, iam_delete_user}
use ec2_wrappers.Accounts.Lifecycle.Outcome.{delete_user_lem}
use ec2_wrappers.Accounts.Scripts.{kill_all_accounts}

module _ (S : Services) where
  delete_user-ok : (name : String) (w : World S) → (delete_user S name w).0 ≡ ok tt
  unfolding delete_user iam_delete_user
  delete_user-ok name w = refl

  delete_users :
      (names : List String) (other : String) (w : World S)
      → let (r, after) = for_each names (delete_user S) w in
        (r ≡ ok tt)
        × (lookup other after.tables.users
            ≡ (if contains names other then none else lookup other w.tables.users))
        × (after.cloud ≡ w.cloud)
        × (after.tables.access_keys ≡ w.tables.access_keys)
        × (after.tables.ssh_keys ≡ w.tables.ssh_keys)
  delete_users [] other w = (refl, refl, refl, refl, refl)
  delete_users (name ∷ names) other w = ground (
    arith,
    delete_user-ok name w,
    delete_user_lem S name other w,
    delete_users names other (delete_user S name w).1,
  )

  -- Without a yes the script raises NameError where it means to exit, and changes nothing. With a yes
  -- it takes every user that IAM lists off the table of users, and leaves all else as it was: all
  -- identities in IAM with their rights, the rows of the access keys and those of the key pairs.
  pub kill_all_accounts_lem :
      (get_all_users : S.Cloud → Result (List String)) (names : List String) (answer other : String)
      (w : World S)
      → get_all_users w.cloud ≡ ok names
      → let (r, after) = kill_all_accounts S get_all_users answer w in
        (r ≡ (if answer == "yes" then ok tt else raised (name_error "sys")))
        × (lookup other after.tables.users ≡ (
            if (answer == "yes") && contains names other
            then none
            else lookup other w.tables.users))
        × (after.cloud ≡ w.cloud)
        × (after.tables.access_keys ≡ w.tables.access_keys)
        × (after.tables.ssh_keys ≡ w.tables.ssh_keys)
  unfolding kill_all_accounts
  kill_all_accounts_lem get_all_users names answer other w h =
      ground (arith, delete_users names other w)
