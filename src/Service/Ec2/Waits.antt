-- ===== src/Service/Ec2/Waits.antt =====
-- The launching, the waiting and the finding of instances by Ec2Cluster (hadoop/cloud/providers/ec2.py),
-- one step at a time.
use ec2_wrappers.Prelude.{
  ℕ, suc, ◌+◌, ◌≤◌, ◌<◌, true, String, Option, none, some, List, [], ◌∷◌, map,
}
use ec2_wrappers.Prelude.{Result, ok, raised, timeout, return, ◌>>=◌}
use ec2_wrappers.Prelude.{◌≡◌, refl, ap, ◌∙◌, sym, All, contains, string_eq}
use ec2_wrappers.Prelude.Reaches.{AfterResult, Leads}
use ec2_wrappers.Ec2
use ec2_wrappers.Ec2.{Reservation, all_of}
use ec2_wrappers.Cluster
use ec2_wrappers.Cluster.{instances_of, role_group, is_role_name, all_started}
use ec2_wrappers.Cluster.Members.{
  IsRunning, ids, launch_instances-member, get_instances_in_role_lem, All-contains,
}
use ec2_wrappers.Cluster.Status.{print_status, print_status-same}
use ec2_wrappers.Prelude.{All-of_contains}
use mathlib.Core.Path.{subst}
use ec2_wrappers.Cluster.Waiting.{Ends, started, timed_out, refused, wait_for_instances-Finished}
use ec2_wrappers.Storage.{Instance}
use ec2_wrappers.Service.{Order, unless_timeout}
use ec2_wrappers.Service.Ec2.{
  Account, Site, in_time, instance_of, wait_for_instances, get_instances_in_role, launch_instances,
  provider_of, forget, in_cloud, text_of, or_empty, user_data,
}

-- What EC2 does while the program waits. It answers a question about instances with all of them, or with
-- an error (InvalidInstanceID.NotFound); and an instance that is in an answer in which all are running
-- is reported in its groups after the wait, as running.
pub record IsSettling (E : Account) : Type 0 where
  pub complete :
      (asked : List String) (n : ℕ) (c : E.compute.Cloud) (answer : List Reservation) (id : String)
      → E.instances_at asked n c ≡ ok answer
      → contains asked id ≡ true
      → contains (ids (all_of answer)) id ≡ true
  pub settles :
      (asked : List String) (n : ℕ) (c : E.compute.Cloud) (answer : List Reservation)
      (group id : String)
      → E.instances_at asked n c ≡ ok answer
      → all_started answer ≡ true
      → contains (ids (all_of answer)) id ≡ true
      → contains (ids (instances_of group none (E.compute.get_all_instances c))) id ≡ true
      → contains
          (ids (instances_of group (some "running") (E.compute.get_all_instances (E.later c))))
          id
        ≡ true

Ends-ok :
    (clock : ℕ → ℕ) (poll : ℕ → Result (List Reservation)) (limit : ℕ) (r : Result (Unit {0}))
    → Ends clock poll limit r
    → r ≡ ok tt
    → (n : ℕ) × (answer : List Reservation) × (poll n ≡ ok answer) × (all_started answer ≡ true)
Ends-ok clock poll limit _ (started n answer h s _) e = (n, answer, h, s)
Ends-ok clock poll limit _ (timed_out n h) e = absurd (cc e)
Ends-ok clock poll limit _ (refused n x h k) e = absurd (cc e)

module _ (E : Account) (patience : ℕ) (name : String) (roles : List String) where
  -- The instances of a role that EC2 reports.
  abbrev pub in_role : String → Option String → Site E → List String
  in_role role state s =
      ids (instances_of (role_group name role) state (E.compute.get_all_instances s.storage.cloud))

  -- All instances that were asked for are found in all of the roles.
  pub IsFound : Option String → List String → Site E → Type 0
  IsFound state asked s =
      (role id : String)
      → contains roles role ≡ true
      → contains asked id ≡ true
      → contains (in_role role state s) id ≡ true

  unfoldable pub AfterWait : List String → Option (Unit {0}) → Site E → Type 0
  AfterWait asked none s = Unit {0}
  AfterWait asked (some _) s = IsFound (some "running") asked s

  waited-IsFound :
      (asked : List String) (s : Site E) (n : ℕ) (answer : List Reservation)
      → IsSettling E
      → IsFound none asked s
      → E.instances_at asked n s.storage.cloud ≡ ok answer
      → all_started answer ≡ true
      → IsFound (some "running") asked (wait_for_instances E patience asked s).1
  unfolding IsFound wait_for_instances
  waited-IsFound asked s n answer law h k a role id r i =
      law.settles asked n s.storage.cloud answer (role_group name role) id k a
        (law.complete asked n s.storage.cloud answer id k i) (h role id r i)

  wait-ok :
      (asked : List String) (s : Site E)
      → ((k : ℕ) → E.clock 0 + k ≤ E.clock (suc k))
      → 600 < patience
      → (wait_for_instances E patience asked s).0 ≡ ok tt
      → (n : ℕ) × (answer : List Reservation) × (E.instances_at asked n s.storage.cloud ≡ ok answer)
        × (all_started answer ≡ true)
  unfolding wait_for_instances in_time
  wait-ok asked s tick enough h =
      let (r, e, ends) =
        wait_for_instances-Finished E.clock (λ n. E.instances_at asked n s.storage.cloud) 600
          patience tick enough in
      Ends-ok E.clock (λ n. E.instances_at asked n s.storage.cloud) 600 r ends
        (sym (ap in_time e) ∙ h)

  wait_cases :
      (asked : List String) (s : Site E) (q : Result (Unit {0}) × Site E)
      → (q.0 ≡ ok tt → IsFound (some "running") asked q.1)
      → AfterResult (AfterWait asked) (unless_timeout (λ (_ : Site E). q) s)
  unfolding unless_timeout AfterWait
  wait_cases asked s (ok a, t) h = h refl
  wait_cases asked s (raised timeout, t) h = tt
  wait_cases asked s (raised other, t) h = tt

  pub wait-Leads :
      (asked : List String)
      → IsSettling E
      → ((k : ℕ) → E.clock 0 + k ≤ E.clock (suc k))
      → 600 < patience
      → Leads
          (IsFound none asked)
          (unless_timeout (wait_for_instances E patience asked))
          (AfterWait asked)
  unfolding Leads unless_timeout
  wait-Leads asked law tick enough s h =
      wait_cases asked s (wait_for_instances E patience asked s) (λ e.
        let (n, answer, k, a) = wait-ok asked s tick enough e in
        waited-IsFound asked s n answer law h k a)

  abbrev of_result : Result (List Ec2.Instance) → List Ec2.Instance
  of_result (ok is) = is
  of_result (raised e) = []

  launch_cases :
      (q : Result (List String) × Site E)
      → ((asked : List String) → q.0 ≡ ok asked → IsFound none asked q.1)
      → AfterResult (λ asked s. (q.0 ≡ ok asked) × IsFound none asked s) q
  launch_cases (ok asked, s) h = (refl, h asked refl)
  launch_cases (raised e, s) h = tt

  launched_member :
      (o : Order) (s0 : Site E) (asked : List String)
      → IsRunning E.compute
      → All (λ r. is_role_name r ≡ true) roles
      → o.roles ≡ roles
      → (launch_instances E name o s0).0 ≡ ok asked
      → IsFound none asked (launch_instances E name o s0).1
  unfolding IsFound launch_instances
  launched_member o s0 asked law valid same h role id r i =
      let (is, g, k) =
        launch_instances-member E.compute name o.roles o.number (or_empty (text_of o.image_id))
          (or_empty (text_of o.size_id)) (user_data E o) [] (text_of o.key_name)
          (text_of o.placement) s0.storage.cloud asked role id law
          (subst (All (λ r. is_role_name r ≡ true)) (sym same) valid) h
          (ap (λ rs. contains rs role) same ∙ r) i in
      let after = (launch_instances E name o s0).1 in
      let shown =
        get_instances_in_role_lem E.compute name role none after.storage.cloud
          (All-contains E.compute is_role_name role roles valid r) in
      subst (λ is. contains (ids is) id ≡ true) (ap of_result (sym g ∙ ap (λ p. p.0) shown)) k

  pub launch-Leads :
      (o : Order) (s0 : Site E)
      → IsRunning E.compute
      → All (λ r. is_role_name r ≡ true) roles
      → o.roles ≡ roles
      → Leads
          (λ s. s ≡ s0)
          (launch_instances E name o)
          (λ asked s. ((launch_instances E name o s0).0 ≡ ok asked) × IsFound none asked s)
  unfolding Leads IsFound launch_instances
  launch-Leads o s0 law valid same s e =
      subst
        (λ s'.
          AfterResult
            (λ asked s''. ((launch_instances E name o s0).0 ≡ ok asked) × IsFound none asked s'')
            (launch_instances E name o s'))
        (sym e)
        (launch_cases (launch_instances E name o s0)
          (λ asked h role id r i. launched_member o s0 asked law valid same h role id r i))

  print_cases :
      {A : Type 0} (J : Site E → Type 0) (s : Site E) (q : Result A × E.compute.Cloud)
      → q.1 ≡ s.storage.cloud
      → J s
      → AfterResult (λ _. J) (forget E (in_cloud E (λ _. q)) s)
  print_cases J s (ok a, c) e h =
      subst (λ d. J (record s { storage = record s.storage { cloud = d } })) (sym e) h
  print_cases J s (raised x, c) e h = tt

  pub print-Leads :
      (J : Site E → Type 0) (shown : List String)
      → Leads J ((provider_of E patience name).print_status shown) (λ _. J)
  unfolding Leads
  print-Leads J shown s h =
      print_cases J s (print_status E.compute name (some "running") shown s.storage.cloud)
        (print_status-same E.compute name (some "running") shown s.storage.cloud) h

  ids-instance_of :
      (is : List Ec2.Instance) → map (λ (i : Instance). i.id) (map instance_of is) ≡ ids is
  unfolding instance_of
  ids-instance_of [] = refl
  ids-instance_of (i ∷ is) = ap (λ rest. i.id ∷ rest) (ids-instance_of is)

  find_cases :
      (asked : List String) (s : Site E) (q : Result (List Ec2.Instance) × E.compute.Cloud)
      → ((is : List Ec2.Instance) → q.0 ≡ ok is → All (λ id. contains (ids is) id ≡ true) asked)
      → AfterResult
          (λ is s'. All (λ id. contains (map (λ (i : Instance). i.id) is) id ≡ true) asked)
          ((in_cloud E (λ _. q) >>= λ is. return (map instance_of is)) s)
  find_cases asked s (ok is, c) h =
      subst (λ names. All (λ id. contains names id ≡ true) asked) (sym (ids-instance_of is))
        (h is refl)
  find_cases asked s (raised e, c) h = tt

  pub find-Leads :
      (asked : List String) (role : String)
      → All (λ r. is_role_name r ≡ true) roles
      → contains roles role ≡ true
      → Leads
          (IsFound (some "running") asked)
          (get_instances_in_role E name role)
          (λ is s. All (λ id. contains (map (λ (i : Instance). i.id) is) id ≡ true) asked)
  unfolding Leads IsFound get_instances_in_role
  find-Leads asked role valid r s h =
      find_cases asked s
        (Cluster.get_instances_in_role E.compute name role (some "running") s.storage.cloud)
        (λ is e.
          let shown =
            get_instances_in_role_lem E.compute name role (some "running") s.storage.cloud
              (All-contains E.compute is_role_name role roles valid r) in
          All-of_contains (λ id. contains (ids is) id ≡ true) asked
            (λ id i.
              subst (λ js. contains (ids js) id ≡ true)
                (ap of_result (sym (ap (λ p. p.0) shown) ∙ e)) (h role id r i)))
