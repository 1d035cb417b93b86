-- ===== src/Service/Ec2/Launched.antt =====
-- What `_launch_instances` (hadoop/cloud/service.py) finds on Ec2Cluster (hadoop/cloud/providers/ec2.py).
use ec2_wrappers.Prelude.{ℕ, suc, ◌+◌, ◌≤◌, ◌<◌, true, String, Option, none, some, List, map}
use ec2_wrappers.Prelude.{ok, ◌>>◌}
use ec2_wrappers.Prelude.{◌≡◌, All, contains, string_eq}
use ec2_wrappers.Cluster.{is_role_name}
use ec2_wrappers.Cluster.Members.{IsRunning}
use ec2_wrappers.Storage.{Instance}
use ec2_wrappers.Service.{Provider, Host, World, Order, InstanceTemplate, order_of}
use ec2_wrappers.Service.Ec2.{Account, Site, launch_instances, provider_of}
use ec2_wrappers.Service.Ec2.Waits.{IsSettling, IsFound}

module _ (E : Account) (patience : ℕ) (name : String) (H : Host) (service_code : String)
    (it : InstanceTemplate) (env : String) where
  abbrev pub P : Provider
  P = provider_of E patience name

  abbrev order : Order
  order = order_of P H service_code it env

  -- What was launched at a site, and is found again at the end of a start.
  abbrev pub Found : Site E → Option (List Instance) → Type 0
  Found s none = Unit {0}
  Found s (some is) =
      (asked : List String) × ((launch_instances E name order s).0 ≡ ok asked)
      × All (λ id. contains (map (λ (i : Instance). i.id) is) id ≡ true) asked

  module _ (s0 : Site E) (law : IsRunning E.compute) (settling : IsSettling E)
      (tick : (k : ℕ) → E.clock 0 + k ≤ E.clock (suc k)) (enough : 600 < patience)
      (valid : All (λ r. is_role_name r ≡ true) it.roles) where
    abbrev Running : List String → World P → Type 0
    Running asked w = IsFound E patience name it.roles (some "running") asked w.cluster

    abbrev Listed : List String → List Instance → Type 0
    Listed asked is = All (λ id. contains (map (λ (i : Instance). i.id) is) id ≡ true) asked

    abbrev Good : Option (List Instance) → World P → Type 0
    Good o w = Found s0 o

    abbrev Waiting : List String → World P → Type 0
    Waiting asked w = IsFound E patience name it.roles none asked w.cluster
