-- ===== src/Ec2.antt =====
-- The objects that boto hands to the program, with the attributes that the program reads. boto
-- itself is not modelled: every answer of EC2 is an argument.
use ec2_wrappers.Prelude.{String, Option, List, [], ◌∷◌, ◌++◌}

pub record Instance : Type 0 where
  pub id : String
  -- `None` for an instance that was launched without a key pair
  pub key_name : Option String
  pub instance_type : String
  pub launch_time : String
  pub state : String
  pub spot_instance_request_id : Option String
  pub dns_name : String
  pub private_dns_name : String

pub record Reservation : Type 0 where
  -- the ids of its security groups
  pub groups : List String
  pub instances : List Instance

pub record SpotRequest : Type 0 where
  pub id : String
  pub state : String
  pub create_time : String
  -- of its launch specification; `None` without a key pair
  pub key_name : Option String
  pub instance_type : String
  pub groups : List String

-- `for reservation in all_instances: for instance in reservation.instances`
abbrev pub all_of : List Reservation → List Instance
all_of [] = []
all_of (res ∷ rest) = res.instances ++ all_of rest
