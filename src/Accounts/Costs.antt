-- ===== src/Accounts/Costs.antt =====
-- What instances cost and which of them count for a user (subaccounts.py). Costs are exact, in tenths
-- of the unit of `INSTANCE_COST`.
use ec2_wrappers.Prelude.{ℕ, ◌+◌, Bool, String, ◌<>◌, none, some, List, [], ◌∷◌, Result, ok}
use ec2_wrappers.Prelude.{raised, select, not, key_error, attribute_error, string_eq, ◌==◌}
use ec2_wrappers.Prelude.{if◌then◌else◌}
use ec2_wrappers.Prelude.Text.{starts_with}
use ec2_wrappers.Prelude.Dict.{Dict, lookup}
use ec2_wrappers.Ec2.{Instance, SpotRequest}

-- INSTANCE_COST, in tenths: t1.micro costs .2 and m2.xlarge 5.9.
abbrev pub instance_costs : Dict String ℕ
instance_costs =
    ("m1.small", 10)
    ∷ ("m1.large", 40)
    ∷ ("m1.xlarge", 80)
    ∷ ("t1.micro", 2)
    ∷ ("m2.xlarge", 59)
    ∷ ("m2.2xlarge", 118)
    ∷ ("m2.4xlarge", 236)
    ∷ ("c1.medium", 20)
    ∷ ("c1.xlarge", 80)
    ∷ ("cc1.4xlarge", 188)
    ∷ []

-- `INSTANCE_COST[instance_type]`
unfoldable pub instance_cost : String → Result ℕ
instance_cost instance_type = elim (lookup instance_type instance_costs) [
  | none ↦ raised (key_error instance_type)
  | some cost ↦ ok cost
]

-- SPEND_LIMIT = 60, in tenths
abbrev pub spend_limit : ℕ
spend_limit = 600

-- The sum of the costs of a list of instances.
unfoldable pub sum_costs : List Instance → Result ℕ
sum_costs [] = ok 0
sum_costs (i ∷ rest) = elim (instance_cost i.instance_type) [
  | raised e ↦ raised e
  | ok cost ↦ elim (sum_costs rest) [ ok more ↦ ok (cost + more) | raised e ↦ raised e ]
]

-- `filter` by the key prefix; `None` has no method `startswith`.
unfoldable pub with_key_prefix : String → List Instance → Result (List Instance)
with_key_prefix prefix [] = ok []
with_key_prefix prefix (i ∷ rest) = elim i.key_name [
  | none ↦ raised attribute_error
  | some key ↦ elim (with_key_prefix prefix rest) [
    | ok more ↦ ok (if starts_with key prefix then i ∷ more else more)
    | raised e ↦ raised e
  ]
]

-- The same for spot requests.
unfoldable pub requests_under : String → List SpotRequest → Result (List SpotRequest)
requests_under prefix [] = ok []
requests_under prefix (r ∷ rest) = elim r.key_name [
  | none ↦ raised attribute_error
  | some key ↦ elim (requests_under prefix rest) [
    | ok more ↦ ok (if starts_with key prefix then r ∷ more else more)
    | raised e ↦ raised e
  ]
]

unfoldable pub is_running : Instance → Bool
is_running i = not (i.state == "terminated")

-- The loop raises on the first instance without a key, and the filters raise nothing.
unfoldable pub counted : String → List Instance → Result (List Instance)
unfolding with_key_prefix is_running
counted user is = elim (with_key_prefix (user <> "-") is) [
  | ok mine ↦ ok (select is_running mine)
  | raised e ↦ raised e
]
