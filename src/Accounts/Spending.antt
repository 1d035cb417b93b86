-- ===== src/Accounts/Spending.antt =====
-- The spending limit that `run_instances` (subaccounts.py) enforces.
use ec2_wrappers.Prelude.{ℕ, ◌+◌, ◌*◌, ◌≤◌, ◌≡◌, true, false, String}
use ec2_wrappers.Prelude.{none, some, Result, Exn, ok, raised, arith}
use ec2_wrappers.Prelude.{ltb, string_eq}
use ec2_wrappers.Prelude.{inl, inr, Bool-cases, Option-cases, Result-cases, ◌⊎◌}
use ec2_wrappers.Prelude.Text.{starts_with}
use ec2_wrappers.Accounts.{
  Services, World, User, Request, Launched, instance_cost, spend_limit, cost_instances,
  cost_proposal, running_instances, run_instances, run_number, run_digits, check, number, digits,
}

module _ (S : Services) where
  -- The two tests of `run_instances`, as a fact about the request and the world before it.
  pub record IsPermitted (u : User) (info : Request) (w : World S) : Type 0 where
    pub old_cost : ℕ
    pub count : ℕ
    pub cost : ℕ
    pub key_name : String
    pub instance_type : String
    pub has_old : (cost_instances S u w).0 ≡ ok old_cost
    pub has_count : info.count ≡ some (number count)
    pub has_type : info.instance_type ≡ some instance_type
    pub has_cost : instance_cost instance_type ≡ ok cost
    pub has_key : info.key_name ≡ some key_name
    pub own_key : starts_with key_name u.user_name ≡ true
    pub within : old_cost + cost * count ≤ spend_limit

  pub cost_instances-same : (u : User) (w : World S) → (cost_instances S u w).1 ≡ w
  unfolding cost_instances running_instances
  cost_instances-same u w = ground arith

  -- The call has raised, and the cloud is as it was.
  abbrev pub Refused : World S → Result Launched × World S → Type 0
  Refused w (ok l, w') = ⊥
  Refused w (raised e, w') = w'.cloud ≡ w.cloud

  module _ (u : User) (info : Request) (w : World S) where
    Refused-cost :
        (e : Exn) → (cost_instances S u w).0 ≡ raised e → Refused w (run_instances S u info w)
    unfolding run_instances
    Refused-cost e h = ground (arith, cost_instances-same u w)

    module _ (old : ℕ) (ho : (cost_instances S u w).0 ≡ ok old) where
      Refused-type : info.instance_type ≡ none → Refused w (run_instances S u info w)
      unfolding run_instances
      Refused-type h = ground (arith, cost_instances-same u w)

      module _ (type : String) (ht : info.instance_type ≡ some type) where
        Refused-count : info.count ≡ none → Refused w (run_instances S u info w)
        unfolding run_instances
        Refused-count h = ground (arith, cost_instances-same u w)

        Refused-unknown :
            (n : ℕ) (e : Exn)
            → info.count ≡ some (number n)
            → instance_cost type ≡ raised e
            → Refused w (run_instances S u info w)
        unfolding run_instances run_number cost_proposal
        Refused-unknown n e hn h = ground (arith, cost_instances-same u w)

        -- A text for a count is never accepted.
        Refused-digits :
            (s : String) → info.count ≡ some (digits s) → Refused w (run_instances S u info w)
        unfolding run_instances run_digits check
        Refused-digits s hs = ground (arith, cost_instances-same u w)

        module _ (n cost : ℕ) (hn : info.count ≡ some (number n))
            (hc : instance_cost type ≡ ok cost) where
          Refused-keyless : info.key_name ≡ none → Refused w (run_instances S u info w)
          unfolding run_instances run_number cost_proposal
          Refused-keyless h = ground (arith, cost_instances-same u w)

          module _ (key : String) (hk : info.key_name ≡ some key) where
            Refused-key : starts_with key u.user_name ≡ false → Refused w (run_instances S u info w)
            unfolding run_instances run_number cost_proposal
            Refused-key h = ground (arith, cost_instances-same u w)

            Refused-limit :
                starts_with key u.user_name ≡ true
                → ltb spend_limit (old + cost * n) ≡ true
                → Refused w (run_instances S u info w)
            unfolding run_instances run_number cost_proposal
            Refused-limit h k = ground (arith, cost_instances-same u w)

            run_instances_tested : IsPermitted u info w ⊎ Refused w (run_instances S u info w)
            run_instances_tested = elim (Bool-cases (starts_with key u.user_name)) [
              | inr h ↦ inr (Refused-key h)
              | inl h ↦ elim (Bool-cases (ltb spend_limit (old + cost * n))) [
                | inl k ↦ inr (Refused-limit h k)
                | inr k ↦ inl (record {
                  old_cost = old;
                  count = n;
                  cost = cost;
                  key_name = key;
                  instance_type = type;
                  has_old = ho;
                  has_count = hn;
                  has_type = ht;
                  has_cost = hc;
                  has_key = hk;
                  own_key = h;
                  within = ground arith;
                })
              ]
            ]

  -- EC2 is reached only by a permitted request: one that names a key that begins with the user's
  -- name, an instance type of known cost and a count, where the cost of the user's running
  -- instances and that of the new ones stay together within `SPEND_LIMIT`. Every other request makes
  -- `run_instances` raise, and the cloud is as it was.
  pub run_instances-guarded :
      (u : User) (info : Request) (w : World S)
      → IsPermitted u info w ⊎ Refused w (run_instances S u info w)
  run_instances-guarded u info w = elim (Result-cases (cost_instances S u w).0) [
    | inr (e, h) ↦ inr (Refused-cost u info w e h)
    | inl (old, ho) ↦ elim (Option-cases info.instance_type) [
      | inl h ↦ inr (Refused-type u info w old ho h)
      | inr (type, ht) ↦ elim (Option-cases info.count) [
        | inl h ↦ inr (Refused-count u info w old ho type ht h)
        | inr (digits s, hn) ↦ inr (Refused-digits u info w old ho type ht s hn)
        | inr (number n, hn) ↦ elim (Result-cases (instance_cost type)) [
          | inr (e, h) ↦ inr (Refused-unknown u info w old ho type ht n e hn h)
          | inl (cost, hc) ↦ elim (Option-cases info.key_name) [
            | inl h ↦ inr (Refused-keyless u info w old ho type ht n cost hn hc h)
            | inr (key, hk) ↦ run_instances_tested u info w old ho type ht n cost hn hc key hk
          ]
        ]
      ]
    ]
  ]
