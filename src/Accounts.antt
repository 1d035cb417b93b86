-- ===== src/Accounts.antt =====
-- subaccounts.py: the accounts of students, their keys, and the launching of instances on their
-- behalf. EC2 and IAM are parameters. Costs are exact, in tenths of the unit of `INSTANCE_COST`; a
-- count of instances is at least 0.
mod Rows
mod Calls
mod Costs
mod Naming
pub mod Names
pub mod Spending
pub mod Totals
pub mod Growth
pub mod Limit
pub mod Credentials
pub mod Lifecycle
pub mod Runner
pub mod Scripts
pub mod Tests
unfoldable pub use Rows.*
unfoldable pub use Calls.*
unfoldable pub use Costs.*
unfoldable pub use Naming.*
use ec2_wrappers.Prelude.{ℕ, ◌+◌, ◌*◌, Bool, String, ◌<>◌, Option, none, some, List, [], ◌∷◌, ◌++◌}
use ec2_wrappers.Prelude.{Result, ok, raised, Exec, return, raise, raise_if, gets, lift, or_raise}
use ec2_wrappers.Prelude.{modify, true, false, ◌>>=◌, ◌>>◌, select, is_empty, not, ◌&&◌, ◌||◌, ltb}
use ec2_wrappers.Prelude.{
  key_error, attribute_error, exception, string_eq, nat_eq, ◌==◌, if◌then◌else◌, ◌%◌, type_error,
}
use ec2_wrappers.Prelude.Text.{starts_with}
use ec2_wrappers.Prelude.Dict.{Dict, insert, has_key}
use ec2_wrappers.Ec2.{Instance, Reservation, SpotRequest, all_of}
use Rows.{UserRow, AccessKeyRow, SshKeyRow, Tables, Count, number, digits, Request, Event, get}
use Calls.{Launch, Services, World, call}

-- `User`: its name, the access keys that it has read, and whether it has its own connections.
pub record User : Type 0 where
  pub user_name : String
  pub access_keys : List (String × String)
  pub connected : Bool

unfoldable pub access_keys_of : String → Dict String AccessKeyRow → List (String × String)
access_keys_of user [] = []
access_keys_of user ((key, row) ∷ rows) =
    let rest = access_keys_of user rows in
    if row.user_name == user then (key, row.secret_access_key) ∷ rest else rest

unfoldable pub ssh_keys_of : String → Dict String SshKeyRow → Dict String SshKeyRow
ssh_keys_of user [] = []
ssh_keys_of user ((key, row) ∷ rows) =
    let rest = ssh_keys_of user rows in if row.user_name == user then (key, row) ∷ rest else rest

-- `INSERT OR IGNORE INTO access_keys`
unfoldable pub insert_or_ignore :
    String → AccessKeyRow → Dict String AccessKeyRow → Dict String AccessKeyRow
insert_or_ignore key row rows = if has_key key rows then rows else insert key row rows

-- `DELETE FROM … WHERE key = ? AND user_name = ?`
unfoldable pub delete_access_row :
    String → String → Dict String AccessKeyRow → Dict String AccessKeyRow
delete_access_row key user [] = []
delete_access_row key user ((k, row) ∷ rows) =
    let rest = delete_access_row key user rows in
    if (k == key) && (row.user_name == user) then rest else (k, row) ∷ rest

unfoldable pub delete_ssh_row : String → String → Dict String SshKeyRow → Dict String SshKeyRow
delete_ssh_row key user [] = []
delete_ssh_row key user ((k, row) ∷ rows) =
    let rest = delete_ssh_row key user rows in
    if (k == key) && (row.user_name == user) then rest else (k, row) ∷ rest

-- What the two branches of `run_instances` return.
pub data Launched : Type 0 where
  reservation : Reservation → Launched
  spot_requests : List SpotRequest → Launched

module _ (S : Services) where
  abbrev pub Action : Type 0 → Type 0
  Action A = Exec (World S) A

  abbrev pub log : Event → Action (Unit {0})
  log e = modify (λ w. record w { log = w.log ++ (e ∷ []) })

  abbrev pub execute : (Tables → Tables) → Action (Unit {0})
  execute f = modify (λ w. record w { tables = f w.tables })

  unfoldable pub user_exists : String → Action Bool
  user_exists name = gets (λ w. has_key name w.tables.users)

  -- `init_access_keys`, and so the constructor too.
  unfoldable pub init_access_keys : User → Action User
  unfolding access_keys_of
  init_access_keys u = gets (λ w.
      let own = access_keys_of u.user_name w.tables.access_keys in
      record {
        user_name = u.user_name;
        access_keys = own;
        connected = u.connected || not (is_empty own);
      })

  unfoldable pub make : String → Action User
  unfolding init_access_keys
  make name = init_access_keys (record { user_name = name; access_keys = []; connected = false })

  -- Without access keys a user has no attribute `ec2`.
  pub running_instances : User → Action (List Instance)
  unfolding counted
  running_instances u = do
    raise_if (not u.connected) attribute_error
    all_instances ← gets (λ w. all_of (S.get_all_instances u.user_name w.cloud))
    lift (counted u.user_name all_instances)

  pub running_spot_requests : User → Action (List SpotRequest)
  unfolding requests_under
  running_spot_requests u = do
    raise_if (not u.connected) attribute_error
    requests ← gets (λ w. S.get_all_spot_instance_requests u.user_name w.cloud)
    relevant ← lift (requests_under (u.user_name <> "-") requests)
    return (select (λ r. r.state == "open") relevant)

  pub cost_instances : User → Action ℕ
  unfolding running_instances sum_costs
  cost_instances u = do instances ← running_instances u; lift (sum_costs instances)

  pub cost_proposal : String → ℕ → Action ℕ
  cost_proposal instance_type num_instances = do
    cost ← lift (instance_cost instance_type)
    return (cost * num_instances)

  -- `instance_info[name]`
  abbrev pub field : {A : Type 0} → String → Option A → Action A
  field name o = or_raise o (key_error name)

  unfoldable pub launch_spot : Request → String → ℕ → String → Action Launched
  launch_spot info instance_type count key_name = do
    cost ← lift (instance_cost instance_type)
    image_id ← field "image_id" info.image_id
    security_groups ← field "security_groups" info.security_groups
    spot ← call (
        S.request_spot_instances (cost * 86) (record {
          image_id = image_id;
          count = count;
          key_name = key_name;
          security_groups = security_groups;
          user_data = get info.user_data;
          instance_type = instance_type;
          placement = get info.availability_zone;
        }))
    return (spot_requests spot)

  launch_demand : Request → String → ℕ → String → Action Launched
  launch_demand info instance_type count key_name = do
    image_id ← field "image_id" info.image_id
    security_groups ← field "security_groups" info.security_groups
    user_data ← field "user_data" info.user_data
    res ← call (
        S.run_instances (record {
          image_id = image_id;
          count = count;
          key_name = key_name;
          security_groups = security_groups;
          user_data = user_data;
          instance_type = instance_type;
          placement = get info.availability_zone;
        }))
    return (reservation res)

  -- The last part of `run_instances`, past its two tests, by `instance_info['use_spot']`.
  launch : Bool → Request → String → ℕ → String → Action Launched
  unfolding launch_spot launch_demand
  launch true = launch_spot
  launch false = launch_demand

  -- A test that writes to the audit log and raises where it fails.
  check : Bool → Event → String → Action (Unit {0})
  check true event message = return tt
  check false event message = do log event; raise (exception message)

  -- The rest of `run_instances` for a number of instances.
  run_number : User → Request → ℕ → String → ℕ → Action Launched
  unfolding cost_proposal check
  run_number u info old_cost instance_type count = do
    let shown = record info { user_data = none }
    extra_cost ← cost_proposal instance_type count
    key_name ← field "key_name" info.key_name
    check (starts_with key_name u.user_name) (rejected_key shown u.user_name)
        "Needs to be associated with SSH key"
    check (not (ltb spend_limit (old_cost + extra_cost))) (rejected_cost shown u.user_name)
        "Excessive instance cost"
    log (making_request shown u.user_name)
    use_spot ← field "use_spot" info.use_spot
    launch use_spot info instance_type count key_name

  -- The rest of it for a text: a cost with a fraction is a float, which takes no text as a factor; a
  -- whole one repeats the text, which is then added to the cost of the running instances.
  run_digits : User → Request → String → Action Launched
  unfolding check
  run_digits u info instance_type = do
    cost ← lift (instance_cost instance_type)
    raise_if (not (cost % 10 == 0)) type_error
    key_name ← field "key_name" info.key_name
    check (starts_with key_name u.user_name)
        (rejected_key (record info { user_data = none }) u.user_name)
        "Needs to be associated with SSH key"
    raise type_error

  pub run_instances : User → Request → Action Launched
  unfolding run_number run_digits
  run_instances u info = do
    old_cost ← cost_instances u
    instance_type ← field "instance_type" info.instance_type
    count ← field "count" info.count
    elim count [
      | number n ↦ run_number u info old_cost instance_type n
      | digits s ↦ run_digits u info instance_type
    ]
