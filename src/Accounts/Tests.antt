-- ===== src/Accounts/Tests.antt =====
-- Requests to `run_instances` (subaccounts.py) against a small cloud.
mod Names
mod Credentials
use mathlib.Core.List.{append-nil}
use mathlib.Core.Path.{subst}
use ec2_wrappers.Prelude.{
  ℕ, code, zero, suc, ◌+◌, ◌≤◌, ◌≡◌, ◌≢◌, refl, sym, ap, ◌∙◌, Bool, true, false, String,
}
use ec2_wrappers.Prelude.{none, some, List, [], ◌∷◌, ◌++◌, Result, ok, raised, arith}
use ec2_wrappers.Prelude.{All, length, select, select-append, string_eq, char_eq, nat_eq}
use ec2_wrappers.Prelude.{◌⊎◌, ne_of_==}
use ec2_wrappers.Prelude.Text.{starts_with, has_char, all_chars}
use ec2_wrappers.Ec2.{Instance, Reservation}
use ec2_wrappers.Usage.{user_from_key}
use ec2_wrappers.Accounts.{
  Services, World, User, Request, number, run_number, Launch, spend_limit, cost_instances,
  full_key_name, is_key_char, proxy_port_base, last_two, port_of, run_instances, running_instances,
  with_key_prefix, is_running, instance_cost, cost_proposal, check, launch, launch_demand,
  full_key_name, sum_costs, counted,
}
use ec2_wrappers.Accounts.Totals.{IsFresh}
use ec2_wrappers.Accounts.Spending.{IsPermitted, Refused, run_instances-guarded}
use ec2_wrappers.Accounts.Growth.{IsLawful, reported}
use ec2_wrappers.Accounts.Limit.{
  IsWithin, Reach, here, next, ask_for, run_instances-IsWithin, run_instances_uncounted,
  Reach-IsWithin,
}
use ec2_wrappers.Accounts.Names.{
  IsLower, user_from_key-full_key_name, full_key_name-full_key_name, proxy_port_base_lem,
  proxy_port_base-apart,
}

abbrev pub running : String → String → Instance
running key type = record {
  id = "i-1";
  key_name = some key;
  instance_type = type;
  launch_time = "t";
  state = "running";
  spot_instance_request_id = none;
  dns_name = "";
  private_dns_name = "";
}

abbrev copies : ℕ → Instance → List Instance
copies zero i = []
copies (suc n) i = i ∷ copies n i

pub has_prefix : String → Instance → Bool
has_prefix user i = elim i.key_name [ none ↦ false | some key ↦ starts_with key user ]

abbrev launched : Launch → List Instance
launched l = copies l.count (running l.key_name l.instance_type)

-- A cloud that keeps a list of instances and nothing else.
abbrev pub small : Services
small = record {
  Cloud = List Instance;
  get_all_instances = λ user c. record { groups = []; instances = select (has_prefix user) c } ∷ [];
  get_all_spot_instance_requests = λ user c. [];
  run_instances = λ l c. (ok (record { groups = []; instances = launched l }), c ++ launched l);
  request_spot_instances = λ price l c. (ok [], c);
  create_key_pair = λ name c. (ok ("material", "fingerprint"), c);
  get_key_pair = λ name c. ok (some name);
  create_access_key = λ user c. (ok ("AK1", "secret"), c);
  delete_access_key = λ key user c. (ok tt, c);
  create_user = λ user c. (ok tt, c);
  add_user_to_group = λ group user c. (ok tt, c);
  put_user_policy = λ user policy c. (ok tt, c);
  create_login_profile = λ user password c. (ok tt, c);
  get_user = λ user c. ok tt;
  user_policies = λ user c. ok [];
  delete_user_policy = λ user policy c. (ok tt, c);
  user_groups = λ user c. ok [];
  remove_user_from_group = λ group user c. (ok tt, c);
  signing_certs = λ user c. ok [];
  delete_signing_cert = λ cert user c. (ok tt, c);
  user_access_keys = λ user c. ok [];
}

select-copies :
    (user key type : String) (n : ℕ)
    → starts_with key user ≡ true
    → select (has_prefix user) (copies n (running key type)) ≡ copies n (running key type)
unfolding has_prefix
select-copies user key type zero h = refl
select-copies user key type (suc n) h = rw (h, select-copies user key type n h)

running_alive : (running "" "").state ≢ "terminated"
unfolding string_eq
running_alive = ne_of_== "running" "terminated" refl

copies-IsFresh : (key type : String) (n : ℕ) → All (IsFresh type key) (copies n (running key type))
copies-IsFresh key type zero = tt
copies-IsFresh key type (suc n) =
    (record { has_key = refl; has_type = refl; alive = running_alive }, copies-IsFresh key type n)

length-copies : (n : ℕ) (i : Instance) → length (copies n i) ≡ n
length-copies zero i = refl
length-copies (suc n) i = ap suc (length-copies n i)

abbrev instances_in : Result Reservation → List Instance
instances_in (ok res) = res.instances
instances_in (raised e) = []

small-adds :
    (l : Launch) (c : List Instance) (user : String)
    → starts_with l.key_name user ≡ true
    → select (has_prefix user) (c ++ launched l) ≡ select (has_prefix user) c ++ launched l
small-adds l c user h =
    select-append (has_prefix user) c (launched l)
    ∙ ap (λ new. select (has_prefix user) c ++ new)
        (select-copies user l.key_name l.instance_type l.count h)

small-runs :
    (l : Launch) (c : List Instance) (new : List Instance) (user : String)
    → launched l ≡ new
    → starts_with l.key_name user ≡ true
    → (reported small user (c ++ launched l) ≡ reported small user c ++ new)
      × All (IsFresh l.instance_type l.key_name) new
      × (length new ≡ l.count)
small-runs l c new user e h =
    subst
      (λ (is : List Instance).
        (reported small user (c ++ launched l) ≡ reported small user c ++ is)
        × All (IsFresh l.instance_type l.key_name) is
        × (length is ≡ l.count))
      e
      (
        append-nil _
            ∙ small-adds l c user h
            ∙ ap (λ is. is ++ launched l) (sym (append-nil (select (has_prefix user) c))),
        copies-IsFresh l.key_name l.instance_type l.count,
        length-copies l.count _,
      )

small-IsLawful : IsLawful small
small-IsLawful = record {
  runs = λ l c res user e h. small-runs l c res.instances user (ap instances_in e) h;
  fails = λ l c e user h. absurd (cc h);
  spots = λ price l c user. refl;
}

abbrev pub student : User
student = record { user_name = "cs61c-ab"; access_keys = ("AK0", "secret") ∷ []; connected = true }

abbrev pub world : List Instance → World small
world c = record {
  cloud = c;
  tables = record { users = []; access_keys = []; ssh_keys = [] };
  log = [];
}

-- Two instances of cost 8 run already.
abbrev two_running : World small
two_running = world (copies 2 (running "cs61c-ab-default" "c1.xlarge"))

abbrev asking : String → ℕ → Request
asking key count = record {
  image_id = some (some "ami-1");
  count = some (number count);
  key_name = some key;
  security_groups = some ("default" ∷ []);
  instance_type = some "c1.xlarge";
  use_spot = some false;
  user_data = some (some "");
  availability_zone = none;
}

-- The cost that counts, and how many instances run, after a request.
abbrev outcome : Request → World small → Result ℕ × ℕ
outcome info w =
    let after = (run_instances small student info w).1 in
    ((cost_instances small student after).0, length after.cloud)

test-permitted : outcome (asking "cs61c-ab-default" 5) two_running ≡ (ok 560, 7)
unfolding run_instances run_number cost_instances running_instances counted with_key_prefix
    is_running sum_costs instance_cost cost_proposal check launch launch_demand has_prefix
    starts_with string_eq char_eq nat_eq
test-permitted = refl

test-refused : outcome (asking "cs61c-ab-default" 6) two_running ≡ (ok 160, 2)
unfolding run_instances run_number cost_instances running_instances counted with_key_prefix
    is_running sum_costs instance_cost cost_proposal check launch launch_demand has_prefix
    starts_with string_eq char_eq nat_eq
test-refused = refl

-- A key that lacks the dash: five instances of cost 8 run, and none counts.
test-uncounted : outcome (asking "cs61c-abc" 5) two_running ≡ (ok 160, 7)
unfolding run_instances run_number cost_instances running_instances counted with_key_prefix
    is_running sum_costs instance_cost cost_proposal check launch launch_demand has_prefix
    starts_with string_eq char_eq nat_eq
test-uncounted = refl

run_instances-guarded_example :
    IsPermitted small student (asking "cs61c-ab-default" 6) two_running
    ⊎ Refused small two_running
        (run_instances small student (asking "cs61c-ab-default" 6) two_running)
run_instances-guarded_example =
    run_instances-guarded small student (asking "cs61c-ab-default" 6) two_running

two_running-IsWithin : IsWithin small small-IsLawful student refl spend_limit two_running
unfolding cost_instances running_instances counted with_key_prefix is_running sum_costs
    instance_cost has_prefix starts_with string_eq char_eq nat_eq
two_running-IsWithin = record { cost = 160; has_cost = refl; cost_le = omega arith }

-- Five instances, then one more, which is refused.
abbrev twice : World small
twice =
    (run_instances small student (asking "cs61c-ab-default" 1)
      (run_instances small student (asking "cs61c-ab-default" 5) two_running).1).1

two_requests : Reach small small-IsLawful student refl two_running twice
two_requests =
    next (next here (ask_for (asking "cs61c-ab-default" 5) two_running))
      (ask_for (asking "cs61c-ab-default" 1) _)

Reach-IsWithin_example : IsWithin small small-IsLawful student refl spend_limit twice
Reach-IsWithin_example =
    Reach-IsWithin small small-IsLawful student refl two_requests two_running-IsWithin

run_instances_uncounted_example :
    (cost_instances small student
      (run_instances small student (asking "cs61c-abc" 5) two_running).1).0
    ≡ ok 160
unfolding cost_instances running_instances counted with_key_prefix is_running sum_costs
    instance_cost has_prefix starts_with string_eq char_eq nat_eq
run_instances_uncounted_example =
    run_instances_uncounted small small-IsLawful student refl (asking "cs61c-abc" 5) "cs61c-abc"
      two_running refl refl 160 refl
