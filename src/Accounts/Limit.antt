-- ===== src/Accounts/Limit.antt =====
-- What a launch through `run_instances` (subaccounts.py) does to the cost that is held against the
-- limit, where EC2 launches what it is asked for.
use mathlib.Core.Option.{some-injective}
use ec2_wrappers.Prelude.{ℕ, ◌+◌, ◌*◌, ◌≤◌, ◌≡◌, sym, ap, ◌∙◌, Bool, true, false, String}
use ec2_wrappers.Prelude.{◌<>◌, some, ok, arith}
use ec2_wrappers.Prelude.{inl, inr, ◌⊎◌}
use ec2_wrappers.Prelude.Text.{starts_with}
use ec2_wrappers.Accounts.{
  Services, World, User, Request, spend_limit, cost_instances, run_instances,
}
use ec2_wrappers.Accounts.Totals.{total, cost_instances_lem}
use ec2_wrappers.Accounts.Spending.{IsPermitted, Refused, run_instances-guarded}
use ec2_wrappers.Accounts.Growth.{
  IsLawful, reported, total-Grows, run_instances-Grows, Refused-cloud,
}

module _ (S : Services) (L : IsLawful S) where
  module _ (u : User) (conn : u.connected ≡ true) where
    -- The cost that is held against the limit in a world is at most `n`.
    pub record IsWithin (n : ℕ) (w : World S) : Type 0 where
      pub cost : ℕ
      pub has_cost : (cost_instances S u w).0 ≡ ok cost
      pub cost_le : cost ≤ n

    cost_instances-total :
        (w : World S)
        → (cost_instances S u w).0 ≡ total u.user_name (reported S u.user_name w.cloud)
    cost_instances-total w = cost_instances_lem S u w conn

    cost-Refused :
        (info : Request) (w : World S) (old : ℕ)
        → Refused S w (run_instances S u info w)
        → (cost_instances S u w).0 ≡ ok old
        → (cost_instances S u (run_instances S u info w).1).0 ≡ ok old
    cost-Refused info w old refused h =
        cost_instances-total _
        ∙ ap (λ c. total u.user_name (reported S u.user_name c)) (Refused-cloud S L w _ refused)
        ∙ sym (cost_instances-total w)
        ∙ h

    -- The counted cost after a permitted request.
    cost-permitted :
        (info : Request) (w : World S) (p : IsPermitted S u info w)
        → (now : ℕ) × ((cost_instances S u (run_instances S u info w).1).0 ≡ ok now)
          × ((now ≡ p.old_cost)
              ⊎ ((starts_with p.key_name (u.user_name <> "-") ≡ true)
                  × (now ≡ p.old_cost + p.cost * p.count)))
    cost-permitted info w p =
        let (now, e, t) =
          total-Grows S L u.user_name p.instance_type p.key_name p.count p.cost p.old_cost _ _
            (run_instances-Grows S L u info w p) p.has_cost
            (sym (cost_instances-total w) ∙ p.has_old) in
        (now, cost_instances-total _ ∙ e, t)

    grown_le :
        (now old extra : ℕ) (Q : Type 0)
        → (now ≡ old) ⊎ (Q × (now ≡ old + extra))
        → old + extra ≤ spend_limit
        → now ≤ spend_limit
    grown_le now old extra Q (inl e) h = omega arith
    grown_le now old extra Q (inr (q, e)) h = omega arith

    grown_same :
        (now old extra : ℕ) (b : Bool)
        → (now ≡ old) ⊎ ((b ≡ true) × (now ≡ old + extra))
        → b ≡ false
        → now ≡ old
    grown_same now old extra b (inl e) h = e
    grown_same now old extra b (inr (q, e)) h = cc

    -- Where EC2 launches what it is asked for and the user has access keys: whatever is asked for, the
    -- cost of the instances that `cost_instances` counts for the user stays within `SPEND_LIMIT` if it
    -- was within it before.
    pub run_instances-IsWithin :
        (info : Request) (w : World S)
        → IsWithin spend_limit w
        → IsWithin spend_limit (run_instances S u info w).1
    run_instances-IsWithin info w h = elim (run_instances-guarded S u info w) [
      | inr refused ↦ record {
        cost = h.cost;
        has_cost = cost-Refused info w h.cost refused h.has_cost;
        cost_le = h.cost_le;
      }
      | inl p ↦
          let (now, e, t) = cost-permitted info w p in
          record { cost = now; has_cost = e; cost_le = grown_le now _ _ _ t p.within }
    ]

    -- Where EC2 launches what it is asked for and the user has access keys: a request under a key that
    -- does not begin with the user's name and a dash adds nothing to the counted cost, however many
    -- instances it starts.
    pub run_instances_uncounted :
        (info : Request) (key : String) (w : World S)
        → info.key_name ≡ some key
        → starts_with key (u.user_name <> "-") ≡ false
        → (old : ℕ) → (cost_instances S u w).0 ≡ ok old
        → (cost_instances S u (run_instances S u info w).1).0 ≡ ok old
    run_instances_uncounted info key w hk hd old ho = elim (run_instances-guarded S u info w) [
      | inr refused ↦ cost-Refused info w old refused ho
      | inl p ↦
          let (now, e, t) = cost-permitted info w p in
          let same_key : p.key_name ≡ key = some-injective _ _ (sym p.has_key ∙ hk) in
          e
          ∙ ap ok
              (grown_same now _ _ _ t (ap (λ k. starts_with k (u.user_name <> "-")) same_key ∙ hd))
          ∙ sym p.has_old
          ∙ ho
    ]

    -- What can happen to the world: the user asks for instances, or something else happens that does
    -- not raise the counted cost, such as the end of an instance.
    pub data Step : World S → World S → Type 0 where
      ask_for : (info : Request) (w : World S) → Step w (run_instances S u info w).1
      other : {w w' : World S} → ((n : ℕ) → IsWithin n w → IsWithin n w') → Step w w'

    pub data Reach (w : World S) : World S → Type 0 where
      here : Reach w w
      next : {v v' : World S} → Reach w v → Step v v' → Reach w v'

    Step-IsWithin : {w w' : World S} → Step w w' → IsWithin spend_limit w → IsWithin spend_limit w'
    Step-IsWithin (ask_for info w) h = run_instances-IsWithin info w h
    Step-IsWithin (other keep) h = keep spend_limit h

    -- Where EC2 launches what it is asked for and the user has access keys: no sequence of requests
    -- takes the counted cost of the user beyond `SPEND_LIMIT`, if it was within it at first and nothing
    -- but the requests raises it.
    pub Reach-IsWithin :
        {w w' : World S} → Reach w w' → IsWithin spend_limit w → IsWithin spend_limit w'
    Reach-IsWithin here h = h
    Reach-IsWithin (next r s) h = Step-IsWithin s (Reach-IsWithin r h)
