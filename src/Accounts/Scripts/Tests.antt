-- ===== src/Accounts/Scripts/Tests.antt =====
-- ec2_active.py and kill_all_accounts.py on a small account.
use ec2_wrappers.Prelude.{true, false, none, [], ◌∷◌, Exn, ok, raised, ◌≡◌, ◌⊎◌, string_eq, refl}
use ec2_wrappers.Prelude.Dict.{lookup}
use ec2_wrappers.Accounts.{World}
use ec2_wrappers.Accounts.Runner.Guard.{caller}
use ec2_wrappers.Accounts.Scripts.{ActiveOptions, ec2_active, kill_all_accounts}
use ec2_wrappers.Accounts.Scripts.Active.{IsIdle, ec2_active-same}
use ec2_wrappers.Accounts.Scripts.Closing.{kill_all_accounts_lem}
use ec2_wrappers.Accounts.Tests.{small, world, running}

abbrev stop_all : ActiveOptions
stop_all = record { terminate_all = true; cancel_spot_requests = false }

-- A student with access keys and one running instance.
abbrev busy : World small
busy = record (world (running "cs61c-ab-default" "m1.small" ∷ [])) {
  tables = record {
    users =
        ("cs61c-ab", record { create_time = "t"; create_account = "cs61c"; login_password = none })
        ∷ [];
    access_keys = ("AK0", record { user_name = "cs61c-ab"; secret_access_key = "secret" }) ∷ [];
    ssh_keys = [];
  };
}

ec2_active-same_example :
    ((ec2_active small (λ id c. (ok tt, [])) "cs61c-ab" (ok stop_all) busy ≡ (ok tt, busy))
      × IsIdle small (λ id c. (ok tt, [])) stop_all busy (caller small "cs61c-ab" busy))
    ⊎ ((e : Exn) × (ec2_active small (λ id c. (ok tt, [])) "cs61c-ab" (ok stop_all) busy
          ≡ (raised e, busy)))
ec2_active-same_example = ec2_active-same small (λ id c. (ok tt, [])) stop_all busy "cs61c-ab"

kill_all_accounts_lem_example :
    let (r, after) = kill_all_accounts small (λ c. ok ("cs61c-ab" ∷ [])) "yes" busy in
    (r ≡ ok tt)
    × (lookup "cs61c-ab" after.tables.users ≡ none)
    × (after.cloud ≡ busy.cloud)
    × (after.tables.access_keys ≡ busy.tables.access_keys)
    × (after.tables.ssh_keys ≡ busy.tables.ssh_keys)
unfolding string_eq
kill_all_accounts_lem_example =
    kill_all_accounts_lem small (λ c. ok ("cs61c-ab" ∷ [])) ("cs61c-ab" ∷ []) "yes" "cs61c-ab" busy
      refl
