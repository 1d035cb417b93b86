-- ===== src/Accounts/Rows.antt =====
-- The user database and the audit messages of subaccounts.py.
use ec2_wrappers.Prelude.{ℕ, Bool, String, Option, none, some, List}
use ec2_wrappers.Prelude.Dict.{Dict}

-- A row of `users`, without its primary key.
pub record UserRow : Type 0 where
  pub create_time : String
  pub create_account : String
  pub login_password : Option String

-- A row of `access_keys`; the key is the primary key.
pub record AccessKeyRow : Type 0 where
  pub user_name : String
  pub secret_access_key : String

-- A row of `ssh_keys`; the name is the primary key.
pub record SshKeyRow : Type 0 where
  pub user_name : String
  pub private_key : String
  pub fingerprint : String

pub record Tables : Type 0 where
  pub users : Dict String UserRow
  pub access_keys : Dict String AccessKeyRow
  pub ssh_keys : Dict String SshKeyRow

-- A count is a number from JSON and by default, and a text from the command line.
pub data Count : Type 0 where
  number : ℕ → Count
  digits : String → Count

-- `instance_info`: a dict in which any key may be missing, and where `some none` holds None. A type
-- or key name of None is as good as a missing one: it ends in an exception at the same place.
pub record Request : Type 0 where
  pub image_id : Option (Option String)
  pub count : Option Count
  pub key_name : Option String
  pub security_groups : Option (List String)
  pub instance_type : Option String
  pub use_spot : Option Bool
  pub user_data : Option (Option String)
  pub availability_zone : Option (Option String)

-- `d.get(k)`, which gives None for a missing key.
abbrev pub get : {A : Type 0} → Option (Option A) → Option A
get none = none
get (some a) = a

-- The messages of `audit_log`, less their wording.
pub data Event : Type 0 where
  creating_access_key : String → String → Event
  creating_ssh_key : String → String → Event
  deleted_ssh_key deleted_access_key : String → Event
  rejected_key rejected_cost making_request : Request → String → Event
  creating_user : String → Event
