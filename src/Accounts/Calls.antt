-- ===== src/Accounts/Calls.antt =====
-- EC2 and IAM as subaccounts.py calls them through boto. `Cloud` is whatever state they keep.
use ec2_wrappers.Prelude.{ℕ, String, Option, List, Result, Exec, name_error, raised}
use ec2_wrappers.Ec2.{Reservation, SpotRequest}
use ec2_wrappers.Accounts.Rows.{Tables, Event}

-- The arguments of `run_instances` and `request_spot_instances`.
pub record Launch : Type 0 where
  pub image_id : Option String
  pub count : ℕ
  pub key_name : String
  pub security_groups : List String
  pub user_data : Option String
  pub instance_type : String
  pub placement : Option String

pub record Services : Type 1 where
  pub Cloud : Type 0
  -- With the filter `key-name: <user>*`.
  pub get_all_instances : String → Cloud → List Reservation
  -- With the filter `launch.key_name: <user>*`.
  pub get_all_spot_instance_requests : String → Cloud → List SpotRequest
  pub run_instances : Launch → Cloud → Result Reservation × Cloud
  -- The price counts in ten-thousandths of a dollar.
  pub request_spot_instances : ℕ → Launch → Cloud → Result (List SpotRequest) × Cloud
  -- The private key and the fingerprint of a new key pair.
  pub create_key_pair : String → Cloud → Result (String × String) × Cloud
  pub get_key_pair : String → Cloud → Result (Option String)
  -- The id and the secret of a new access key.
  pub create_access_key : String → Cloud → Result (String × String) × Cloud
  pub delete_access_key : String → String → Cloud → Result (Unit {0}) × Cloud
  pub create_user : String → Cloud → Result (Unit {0}) × Cloud
  pub add_user_to_group : String → String → Cloud → Result (Unit {0}) × Cloud
  pub put_user_policy : String → String → Cloud → Result (Unit {0}) × Cloud
  pub create_login_profile : String → String → Cloud → Result (Unit {0}) × Cloud
  pub get_user : String → Cloud → Result (Unit {0})
  pub user_policies : String → Cloud → Result (List String)
  pub delete_user_policy : String → String → Cloud → Result (Unit {0}) × Cloud
  pub user_groups : String → Cloud → Result (List String)
  pub remove_user_from_group : String → String → Cloud → Result (Unit {0}) × Cloud
  pub signing_certs : String → Cloud → Result (List String)
  pub delete_signing_cert : String → String → Cloud → Result (Unit {0}) × Cloud
  pub user_access_keys : String → Cloud → Result (List String)

module _ (S : Services) where
  pub record World : Type 0 where
    pub cloud : S.Cloud
    pub tables : Tables
    pub log : List Event

module _ {S : Services} {A : Type 0} where
  -- A call that may change what the services keep.
  abbrev pub call : (S.Cloud → Result A × S.Cloud) → Exec (World S) A
  call f w = let (r, c) = f w.cloud in (r, record w { cloud = c })

  -- A call that only reads.
  abbrev pub ask : (S.Cloud → Result A) → Exec (World S) A
  ask f w = (f w.cloud, w)

  -- A name that nothing defines.
  abbrev pub undefined : String → Exec (World S) A
  undefined name w = (raised (name_error name), w)
