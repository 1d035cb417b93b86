-- ===== src/Accounts/Runner/Guard.antt =====
-- ec2_runner.py launches nothing that `run_instances` does not permit.
use ec2_wrappers.Prelude.{
  true, false, String, Option, List, Result, Exn, ok, raised, ◌≡◌, refl, arith,
}
use ec2_wrappers.Prelude.{Result-cases, some, sym, ◌∙◌}
use ec2_wrappers.Prelude.{
  not, is_empty, system_exit, exception, ◌<>◌, inl, inr, ◌⊎◌, Bool-cases, ◌||◌,
}
use ec2_wrappers.Accounts.{
  Services, World, User, Launched, access_keys_of, init_access_keys, make, run_instances,
}
use ec2_wrappers.Accounts.Runner.{
  Submission, has_own_key, completed, submit, main, Options, Input, request_of, request_of_options,
  stdin_of,
}
use ec2_wrappers.Accounts.{digits}
use ec2_wrappers.Accounts.Spending.{IsPermitted, Refused, run_instances-guarded}

module _ (S : Services) where
  -- The user that the program works for.
  abbrev pub caller : String → World S → User
  caller name w =
      let own = access_keys_of name w.tables.access_keys in
      record { user_name = name; access_keys = own; connected = false || not (is_empty own) }

  -- The program has raised, and the cloud is as it was.
  pub record Stopped (w : World S) (out : Result (List String) × World S) : Type 0 where
    pub error : Exn
    pub has_error : out.0 ≡ raised error
    pub same_cloud : out.1.cloud ≡ w.cloud

  Refused-raised :
      (w : World S) (out : Result Launched × World S)
      → Refused S w out
      → (e : Exn) × (out.0 ≡ raised e) × (out.1.cloud ≡ w.cloud)
  Refused-raised w (ok l, v) r = absurd r
  Refused-raised w (raised e, v) r = (e, refl, r)

  module _ (name : String) (s : Submission) (stdin : Option String) (w : World S) where
    Stopped-key :
        has_own_key name s.request.key_name ≡ false
        → Stopped w (submit S name (caller name w) s stdin w)
    unfolding submit
    Stopped-key h = record {
      error = system_exit 2;
      has_error = ground arith;
      same_cloud = ground arith;
    }

    Stopped-keyless :
        has_own_key name s.request.key_name ≡ true
        → is_empty (caller name w).access_keys ≡ true
        → Stopped w (submit S name (caller name w) s stdin w)
    unfolding submit
    Stopped-keyless h k = record {
      error = exception ("No access keys for " <> name);
      has_error = rw h (rw k refl);
      same_cloud = rw h (rw k refl);
    }

    Stopped-Refused :
        has_own_key name s.request.key_name ≡ true
        → is_empty (caller name w).access_keys ≡ false
        → Refused S w (run_instances S (caller name w) (completed s stdin) w)
        → Stopped w (submit S name (caller name w) s stdin w)
    unfolding submit
    Stopped-Refused h k r =
        let (e, f, c) = Refused-raised w _ r in
        record { error = e; has_error = ground arith; same_cloud = ground arith }

    submit-guarded :
        (IsPermitted S (caller name w) (completed s stdin) w
          × (has_own_key name s.request.key_name ≡ true)
          × (is_empty (caller name w).access_keys ≡ false))
        ⊎ Stopped w (submit S name (caller name w) s stdin w)
    submit-guarded = elim (Bool-cases (has_own_key name s.request.key_name)) [
      | inr h ↦ inr (Stopped-key h)
      | inl h ↦ elim (Bool-cases (is_empty (caller name w).access_keys)) [
        | inl k ↦ inr (Stopped-keyless h k)
        | inr k ↦ elim (run_instances-guarded S (caller name w) (completed s stdin) w) [
          | inl p ↦ inl (p, h, k)
          | inr r ↦ inr (Stopped-Refused h k r)
        ]
      ]
    ]

  module _ (name : String) (parsed : Result Options) (input : Input) (w : World S) where
    -- A request that may reach EC2.
    pub record Admitted : Type 0 where
      pub options : Options
      pub submission : Submission
      pub has_options : parsed ≡ ok options
      pub no_args : is_empty options.args ≡ true
      pub has_submission : request_of name options input ≡ ok submission
      pub permitted :
          IsPermitted S (caller name w) (completed submission (stdin_of options input)) w
      pub own_key : has_own_key name submission.request.key_name ≡ true
      pub has_keys : is_empty (caller name w).access_keys ≡ false

    Stopped-parsed : (e : Exn) → parsed ≡ raised e → Stopped w (main S name parsed input w)
    unfolding main make init_access_keys
    Stopped-parsed e h = rw h (record { error = e; has_error = refl; same_cloud = refl })

    module _ (o : Options) (h : parsed ≡ ok o) where
      Stopped-args : is_empty o.args ≡ false → Stopped w (main S name parsed input w)
      unfolding main make init_access_keys
      Stopped-args k =
          rw h (rw k (record { error = system_exit 2; has_error = refl; same_cloud = refl }))

      Stopped-request :
          (e : Exn)
          → is_empty o.args ≡ true
          → request_of name o input ≡ raised e
          → Stopped w (main S name parsed input w)
      unfolding main make init_access_keys
      Stopped-request e k r =
          rw h (rw k (rw r (record { error = e; has_error = refl; same_cloud = refl })))

      main-submit :
          (s : Submission)
          → is_empty o.args ≡ true
          → request_of name o input ≡ ok s
          → main S name parsed input w ≡ submit S name (caller name w) s (stdin_of o input) w
      unfolding main make init_access_keys
      main-submit s k r = rw h (rw k (rw r refl))

      main-read :
          (s : Submission)
          → is_empty o.args ≡ true
          → request_of name o input ≡ ok s
          → Admitted ⊎ Stopped w (main S name parsed input w)
      main-read s k r = elim (submit-guarded name s (stdin_of o input) w) [
        | inl (p, own, keys) ↦ inl (record {
          options = o;
          submission = s;
          has_options = h;
          no_args = k;
          has_submission = r;
          permitted = p;
          own_key = own;
          has_keys = keys;
        })
        | inr stop ↦ inr (rw (main-submit s k r) stop)
      ]

    -- The program reaches EC2 only where optparse accepts the command line with no words left over, for
    -- a caller who has access keys, with a request under a key that begins with the name of the caller
    -- and that passes both tests of `run_instances`, with the placement and the user data that the
    -- program adds. In every other case it raises, and the cloud is as it was.
    pub main-guarded : Admitted ⊎ Stopped w (main S name parsed input w)
    main-guarded = elim (Result-cases parsed) [
      | inr (e, h) ↦ inr (Stopped-parsed e h)
      | inl (o, h) ↦ elim (Bool-cases (is_empty o.args)) [
        | inr k ↦ inr (Stopped-args o h k)
        | inl k ↦ elim (Result-cases (request_of name o input)) [
          | inr (e, r) ↦ inr (Stopped-request o h e k r)
          | inl (s, r) ↦ main-read o h s k r
        ]
      ]
    ]

    asks_digits :
        (o : Options) (s : Submission) (count : String)
        → o.count ≡ some count
        → o.stdin_json ≡ false
        → request_of name o input ≡ ok s
        → s.request.count ≡ some (digits count)
    unfolding request_of request_of_options
    asks_digits o s count c j r = ground arith

    not_counted :
        (o : Options) (count : String)
        → parsed ≡ ok o
        → o.count ≡ some count
        → o.stdin_json ≡ false
        → Admitted
        → ⊥
    unfolding completed
    not_counted o count h c j a =
        let same : (ok a.options ≡ ok o) = sym a.has_options ∙ h in
        let digit = asks_digits a.options a.submission count (cc) (cc) a.has_submission in
        cc (digit, a.permitted.has_count)

    -- With `--count` on the command line, and a request that is not from standard input, the program
    -- raises whatever the count is and whatever else is asked for, and the cloud is as it was.
    pub main_counted :
        (o : Options) (count : String)
        → parsed ≡ ok o
        → o.count ≡ some count
        → o.stdin_json ≡ false
        → Stopped w (main S name parsed input w)
    main_counted o count h c j = elim main-guarded [
      | inr stop ↦ stop
      | inl a ↦ absurd (not_counted o count h c j a)
    ]
