-- ===== src/Course/Limited.antt =====
-- A cluster of the course (cs61cec2.py) that launches through ec2_runner.py, which applies the limit of
-- subaccounts.py.
use ec2_wrappers.Prelude.{String, false, true, none, some, [], Result, ok, raised, value_error}
use ec2_wrappers.Prelude.{
  ◌≡◌, refl, ap, sym, ◌∙◌, arith, inl, inr, ◌>>◌, for_each, lift, List, ◌++◌,
}
use ec2_wrappers.Prelude.Reaches.{AfterResult, Leads, Leads-at, Leads-bind}
use mathlib.Core.Path.{subst}
use ec2_wrappers.Accounts.{Services, World, number}
use ec2_wrappers.Accounts.Runner.{
  Submission, Options, Input, main, completed, request_of, request_of_json, decoded, stdin_of,
}
use ec2_wrappers.Accounts.Runner.Guard.{caller, Admitted, main-guarded}
use ec2_wrappers.Accounts.Spending.{IsPermitted}
use ec2_wrappers.Cluster.{Compute, Action, check_role_name, create_groups, get_group_names}
use ec2_wrappers.Course.{Launch, submission_of, submit, ids_of, launch_instances}

-- The options of `ec2_runner.py --stdin-json`.
unfoldable pub json_options : Options
json_options = record {
  image_id = none;
  count = none;
  key_name = none;
  availability_zone = none;
  placement_group = none;
  instance_type = none;
  user_data = none;
  use_spot = false;
  security_groups = [];
  stdin_user_data = false;
  stdin_json = true;
  args = [];
}

-- `simplejson.load(proc.stdout)`: a program that raises prints no JSON.
unfoldable pub answer_of : Result (List String) → Result (List String)
answer_of (ok ids) = ok ids
answer_of (raised e) = raised value_error

module _ (S : Services) (C : Compute) (user : String) (b64decode : String → Result String)
    (world_of : C.Cloud → World S) (with_world : World S → C.Cloud → C.Cloud) where
  abbrev input_of : Submission → Input
  input_of s = record { json = ok s; text = ""; b64decode = b64decode }

  -- The process that is started for a request, which the user data are encoded in. It works on a part
  -- of what the cluster sees as the cloud.
  unfoldable pub runner_of : Submission → Action C (List String)
  runner_of s c =
      let (r, w) = main S user (ok json_options) (input_of s) (world_of c) in
      (answer_of r, with_world w c)

  -- What the request of a launch has passed before it reached EC2: the tests of the key and of the
  -- limit, for its number and type of instances.
  pub record Granted (l : Launch) (c : C.Cloud) : Type 0 where
    pub sent : Submission
    pub permitted : IsPermitted S (caller S user (world_of c)) (completed sent none) (world_of c)
    pub asks_number : sent.request.count ≡ some (number l.number)
    pub asks_type : sent.request.instance_type ≡ some l.size_id

  -- A launch that was granted in such a state.
  abbrev SentFrom : Launch → (C.Cloud → Type 0) → Type 0
  SentFrom l J = (c : C.Cloud) × J c × Granted l c

  -- The steps of a launch up to the start of the program, and the state in which it is started.
  pub record Sent (name : String) (l : Launch) (c : C.Cloud) : Type 0 where
    pub made : C.Cloud
    pub groups : List String
    pub started : C.Cloud
    pub has_groups :
        for_each l.roles (λ role. check_role_name C role >> create_groups C name role) c
        ≡ (ok tt, made)
    pub has_names : get_group_names C name l.roles made ≡ (ok groups, started)
    pub granted : Granted l started

  module _ (l : Launch) (groups : List String) (content : String) where
    abbrev request : Submission
    request = submission_of l groups content

    kept_request :
        (s : Submission)
        → request_of user json_options (input_of request) ≡ ok s
        → (s.request.count ≡ some (number l.number)) × (s.request.instance_type ≡ some l.size_id)
    unfolding request_of request_of_json json_options decoded submission_of
    kept_request s h = ground arith

    same_options : (o : Options) → ok json_options ≡ ok o → json_options ≡ o
    same_options o h = cc

    granted :
        (c : C.Cloud)
        → Admitted S user (ok json_options) (input_of request) (world_of c)
        → Granted l c
    unfolding stdin_of json_options
    granted c a =
        let same = same_options a.options a.has_options in
        let (number_kept, type_kept) =
          kept_request a.submission
            (ap (λ o. request_of user o (input_of request)) same ∙ a.has_submission) in
        record {
          sent = a.submission;
          permitted =
              subst
                (λ o.
                  IsPermitted S (caller S user (world_of c))
                    (completed a.submission (stdin_of o (input_of request))) (world_of c))
                (sym same) a.permitted;
          asks_number = number_kept;
          asks_type = type_kept;
        }

    answered :
        (J : C.Cloud → Type 0) (c d : C.Cloud) (r : Result (List String))
        → J c
        → r ≡ (main S user (ok json_options) (input_of request) (world_of c)).0
        → AfterResult (λ ids (_ : C.Cloud). SentFrom l J) (answer_of r, d)
    unfolding answer_of
    answered J c d (raised e) j h = tt
    answered J c d (ok ids) j h =
        elim (main-guarded S user (ok json_options) (input_of request) (world_of c)) [
          | inl a ↦ (c, j, granted c a)
          | inr stop ↦ absurd (cc (h, stop.has_error))
        ]

    runner-Leads : (J : C.Cloud → Type 0) → Leads J (runner_of request) (λ _ _. SentFrom l J)
    unfolding Leads runner_of
    runner-Leads J c j =
        answered J c
          (with_world (main S user (ok json_options) (input_of request) (world_of c)).1 c)
          (main S user (ok json_options) (input_of request) (world_of c)).0 j refl

  any_cases :
      {A : Type 0} (G : Type 0) (q : Result A × C.Cloud) → G → AfterResult (λ _ (_ : C.Cloud). G) q
  any_cases G (ok a, c) g = g
  any_cases G (raised e, c) g = tt

  any-Leads : {A : Type 0} (F G : Type 0) (m : Action C A) → (F → G) → Leads (λ _. F) m (λ _ _. G)
  unfolding Leads
  any-Leads F G m h c f = any_cases G (m c) (h f)

  exact_cases :
      {A : Type 0} (q : Result A × C.Cloud) → AfterResult (λ a (s : C.Cloud). q ≡ (ok a, s)) q
  exact_cases (ok a, s) = refl
  exact_cases (raised e, s) = tt

  -- A step is remembered from its start.
  exact-Leads :
      {A : Type 0} (m : Action C A) (c : C.Cloud) → Leads (λ s. s ≡ c) m (λ a s. m c ≡ (ok a, s))
  unfolding Leads
  exact-Leads m c s e =
      subst (λ t. AfterResult (λ a u. m c ≡ (ok a, u)) (m t)) (sym e) (exact_cases (m c))

  kept_cases :
      {A : Type 0} (J : C.Cloud → Type 0) (r : Result A) (s : C.Cloud)
      → J s
      → AfterResult (λ (_ : A) t. J t) (lift r s)
  kept_cases J (ok a) s j = j
  kept_cases J (raised e) s j = tt

  kept-Leads : {A : Type 0} (J : C.Cloud → Type 0) (r : Result A) → Leads J (lift r) (λ _ t. J t)
  unfolding Leads
  kept-Leads J r s j = kept_cases J r s j

  -- What is known when the groups are made, and when their names are there.
  abbrev Made : String → Launch → C.Cloud → C.Cloud → Type 0
  Made name l c s =
      for_each l.roles (λ role. check_role_name C role >> create_groups C name role) c ≡ (ok tt, s)

  abbrev Named : String → Launch → C.Cloud → List String → C.Cloud → Type 0
  Named name l c groups s =
      (made : C.Cloud) × Made name l c made × (get_group_names C name l.roles made ≡ (ok groups, s))

  names_cases :
      (name : String) (l : Launch) (c made : C.Cloud) (q : Result (List String) × C.Cloud)
      → Made name l c made
      → get_group_names C name l.roles made ≡ q
      → AfterResult (λ groups s. Named name l c groups s) q
  names_cases name l c made (ok groups, s) h e = (made, h, e)
  names_cases name l c made (raised x, s) h e = tt

  names-Leads :
      (name : String) (l : Launch) (c : C.Cloud)
      → Leads (Made name l c) (get_group_names C name l.roles) (λ groups s. Named name l c groups s)
  unfolding Leads
  names-Leads name l c made h =
      names_cases name l c made (get_group_names C name l.roles made) h refl

  sent :
      (name : String) (l : Launch) (c : C.Cloud) (groups : List String)
      → SentFrom l (Named name l c groups)
      → Sent name l c
  sent name l c groups (started, (made, h, e), g) = record {
    made = made;
    groups = groups;
    started = started;
    has_groups = h;
    has_names = e;
    granted = g;
  }

  submit-Leads :
      (name : String) (l : Launch) (c : C.Cloud) (groups : List String) (content : String)
      → Leads (Named name l c groups) (submit C runner_of l groups content) (λ _ _. Sent name l c)
  unfolding submit
  submit-Leads name l c groups content =
      let J = Named name l c groups in
      Leads-bind J (λ _ _. SentFrom l J) (λ _ _. Sent name l c)
        (runner_of (submission_of l (groups ++ l.security_groups) content)) _
        (runner-Leads l (groups ++ l.security_groups) content J)
        (λ result.
          any-Leads (SentFrom l J) (Sent name l c) (ids_of C runner_of l.use_spot result)
            (sent name l c groups))

  -- A cluster of the course is launched only within the spending limit of its user: if a launch returns
  -- instances, then its request, with its number and type of instances, has passed the tests of
  -- `run_instances` in the world in which the program was started for it, which is the one that the
  -- launch comes to when it has made its groups.
  pub launch_instances-Granted :
      (name : String) (l : Launch) (c : C.Cloud)
      → AfterResult (λ ids (_ : C.Cloud). Sent name l c) (launch_instances C runner_of name l c)
  unfolding launch_instances
  launch_instances-Granted name l c =
      Leads-at (λ s. s ≡ c) (launch_instances C runner_of name l) (λ _ _. Sent name l c)
        (Leads-bind (λ s. s ≡ c) (λ _ s. Made name l c s) (λ _ _. Sent name l c)
          (for_each l.roles (λ role. check_role_name C role >> create_groups C name role)) _
          (exact-Leads _ c)
          (λ _.
            Leads-bind (Made name l c) (λ _ s. Made name l c s) (λ _ _. Sent name l c)
              (lift l.user_data) _ (kept-Leads (Made name l c) l.user_data)
              (λ content.
                Leads-bind (Made name l c) (λ groups s. Named name l c groups s)
                  (λ _ _. Sent name l c) (get_group_names C name l.roles) _ (names-Leads name l c)
                  (λ groups. submit-Leads name l c groups content))))
        c refl
