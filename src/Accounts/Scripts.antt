-- ===== src/Accounts/Scripts.antt =====
-- ec2_active.py, which shows a student what runs and should stop it, and kill_all_accounts.py, which
-- takes all users off the account. What they print is left out.
pub mod Active
pub mod Closing
mod Tests
use ec2_wrappers.Prelude.{Bool, true, false, String, List, [], ◌∷◌, Result, ok, raised, Exec}
use ec2_wrappers.Prelude.{return, lift, for_each, when, is_empty, not, ◌>>=◌, ◌>>◌, ◌||◌}
use ec2_wrappers.Prelude.{string_eq, ◌==◌}
use ec2_wrappers.Ec2.{Instance, SpotRequest}
use ec2_wrappers.Accounts.{
  Services, User, Action, make, running_instances, running_spot_requests, ask, call, undefined,
}
use ec2_wrappers.Accounts.Lifecycle.{delete_user}

-- The options of ec2_active.py.
pub record ActiveOptions : Type 0 where
  pub terminate_all : Bool
  pub cancel_spot_requests : Bool

module _ (S : Services) where
  -- `datetime` is not imported.
  unfoldable pub running_time : String → Action S String
  running_time start_time = undefined "datetime"

  -- The table of the instances.
  unfoldable pub show_instances : List Instance → Action S (Unit {0})
  unfolding running_time
  show_instances instances = for_each instances (λ i. do running_time i.launch_time; return tt)

  -- The table of the spot requests; the format is assigned under another name, SPOT_FROMAT.
  unfoldable pub show_requests : List SpotRequest → Action S (Unit {0})
  unfolding running_time
  show_requests requests = when (not (is_empty requests)) (do
    undefined {A = Unit {0}} "SPOT_FORMAT"
    for_each requests (λ r. do running_time r.create_time; return tt))

  -- The variable of the loop is `request`.
  unfoldable pub cancel_requests : List SpotRequest → Action S (Unit {0})
  cancel_requests requests = for_each requests (λ r. undefined "spot_request")

  module _ (terminate : String → S.Cloud → Result (Unit {0}) × S.Cloud) where
    -- The message names `request`, which only a loop over the spot requests defines.
    unfoldable pub terminate_instances : List SpotRequest → List Instance → Action S (Unit {0})
    terminate_instances requests instances =
        for_each instances
          (λ i. do call (terminate i.id); when (is_empty requests) (undefined "request"))

    -- Past the making of the user.
    unfoldable pub active : ActiveOptions → User → Action S (Unit {0})
    unfolding show_instances show_requests cancel_requests terminate_instances
    active o user = do
      instances ← running_instances S user
      requests ← running_spot_requests S user
      show_instances instances
      show_requests requests
      when (o.cancel_spot_requests || o.terminate_all) (cancel_requests requests)
      when o.terminate_all (terminate_instances requests instances)

    -- The script, with what optparse makes of its arguments.
    unfoldable pub ec2_active : String → Result ActiveOptions → Action S (Unit {0})
    ec2_active real_username parsed = do o ← lift parsed; user ← make S real_username; active o user

  -- kill_all_accounts.py, with the answer of the user and the names of the users that IAM lists. It
  -- does not import `sys`.
  unfoldable pub kill_all_accounts : (S.Cloud → Result (List String)) → String → Action S (Unit {0})
  kill_all_accounts get_all_users maybe_yes = do
    when (not (maybe_yes == "yes")) (undefined "sys")
    users ← ask get_all_users
    for_each users (delete_user S)
