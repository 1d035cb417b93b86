-- ===== src/Service/Ports/Tests.antt =====
-- A cluster that records the opening of ports (hadoop/cloud/service.py).
use ec2_wrappers.Prelude.{ℕ, zero, suc, false, String, none, some, List, [], ◌∷◌}
use ec2_wrappers.Prelude.{ok, refl, ◌≡◌, return, contains, string_eq}
use ec2_wrappers.Prelude.{char_eq}
use ec2_wrappers.Service.{Provider, Host, World}
use ec2_wrappers.Prelude.{some, nat_eq}
use ec2_wrappers.Service.Ports.{
  IsOpened, to_client, to_master, client_ports, master_ports, authorize_client_ports-IsOpened,
}
use ec2_wrappers.Service.Hadoop.{authorize_client_ports}
use ec2_wrappers.Util.{Value}
use ec2_wrappers.Prelude.{true, Option, state_after, get_elem?, All}
use mathlib.Core.Path.{subst}
use ec2_wrappers.Service.Tests.{machine, machine_of_user}

-- A cluster that keeps the numbers of the ports that were opened.
abbrev gate : Provider
gate = record {
  World = List ℕ;
  name = "c";
  provider_code = "ec2";
  print_status = λ roles. return tt;
  get_instances_in_role = λ role ports. (ok (machine "m" ∷ []), ports);
  launch_instances = λ order. return [];
  wait_for_instances = λ ids. return tt;
  authorize_role = λ role from to network ports. (ok tt, from ∷ ports);
  terminate = return tt;
  delete = return tt;
  has_any_storage = λ roles. return false;
  get_mappings_string_for_role = λ role. return "";
  attach = λ role instances. return tt;
  create_storage = λ role n zone spec. return tt;
  delete_storage = λ roles. return tt;
  print_storage = λ roles. return tt;
  get_clusters_with_role = λ role. return [];
  create_formatted_snapshot = λ size zone image key options. return tt;
  get_storage_roles = return [];
}

abbrev numbers : List ℕ
numbers = 80 ∷ 50030 ∷ 50070 ∷ 50060 ∷ 50075 ∷ 8020 ∷ 8021 ∷ []

abbrev IsNumber : ℕ → Type 0
IsNumber n = contains numbers n ≡ true

abbrev number_in : Option (String × ℕ) → ℕ
number_in none = 80
number_in (some (role, n)) = n

client_ports-IsNumber : (n : ℕ) → IsNumber (number_in (get_elem? client_ports n))
unfolding nat_eq
client_ports-IsNumber zero = refl
client_ports-IsNumber (suc zero) = refl
client_ports-IsNumber (suc (suc zero)) = refl
client_ports-IsNumber (suc (suc (suc zero))) = refl
client_ports-IsNumber (suc (suc (suc (suc zero)))) = refl
client_ports-IsNumber (suc (suc (suc (suc (suc n))))) = refl

master_ports-IsNumber : (n : ℕ) → IsNumber (number_in (get_elem? master_ports n))
unfolding nat_eq
master_ports-IsNumber zero = refl
master_ports-IsNumber (suc zero) = refl
master_ports-IsNumber (suc (suc n)) = refl

opened-IsNumber :
    (H : Host) (cidrs : Option Value) (role : String) (n : ℕ) (network : String)
    → IsOpened H cidrs role n network
    → IsNumber n
opened-IsNumber H cidrs role n network (to_client k _ _ _ h c) =
    subst (λ o. IsNumber (number_in o)) h (client_ports-IsNumber k)
opened-IsNumber H cidrs role n network (to_master k _ _ _ h c) =
    subst (λ o. IsNumber (number_in o)) h (master_ports-IsNumber k)

abbrev shut : World gate
shut = record { cluster = []; files = []; calls = [] }

abbrev authorized : World gate
authorized = state_after (authorize_client_ports gate machine_of_user none) shut

authorize_client_ports-IsOpened_example :
    All IsNumber authorized.cluster × ((authorized.files ≡ []) × (authorized.calls ≡ []))
authorize_client_ports-IsOpened_example =
    authorize_client_ports-IsOpened gate machine_of_user none (All IsNumber) shut (λ role c i. i)
      (λ role n network h c i. (opened-IsNumber machine_of_user none role n network h, i)) tt
