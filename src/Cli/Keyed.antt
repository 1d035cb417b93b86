-- ===== src/Cli/Keyed.antt =====
-- What the command line (hadoop/cloud/cli.py) checks before it launches.
use mathlib.Core.Path.{subst}
use ec2_wrappers.Prelude.{ℕ, true, false, String, some, List, [], ◌∷◌, ok, raised}
use ec2_wrappers.Prelude.{◌≡◌, refl, arith, All, Bool-cases, Option-cases, Result-cases, inl, inr}
use ec2_wrappers.Prelude.{◌==◌, string_eq, ◌||◌, is_empty}
use ec2_wrappers.Service.Zookeeper.{get_service}
use ec2_wrappers.Prelude.Dict.{Dict, lookup}
use ec2_wrappers.Cli.{
  Call, Plan, Console, Flow, check_options_set, check_launch_options_set, cluster_templates, number,
  word, parse_options, get_service_name, get_cloud_provider, option, master_roles, slave_roles,
  ◌>>=◌,
}
use ec2_wrappers.Cli.Ready.{
  launched_by, IsReady, IsSafe, IsKeyed, second_set, check_launch_options_set-HasBoth,
  template-IsReady, cluster_templates-IsReady,
}
use ec2_wrappers.Cli.Commands.{
  Context, plan, commands, simple, parse_options_and_config, plan_list, plan_launch_master,
  plan_launch_slaves, plan_launch_cluster, plan_execute, plan_create_snapshot, plan_create_storage,
  plan_update_slaves_file, forced,
}

-- What the result of a plan is, where there is one.
abbrev SafePlan : Flow Plan → Type 0
SafePlan (ok p) = IsSafe p.provider p.call
SafePlan (raised e) = Unit

abbrev SafeCall : String → Flow Call → Type 0
SafeCall provider (ok call) = IsSafe provider call
SafeCall provider (raised e) = Unit

simple-SafePlan :
    (C : Console) (command : String) (words : List String) (n : ℕ) (make : Context → Flow Call)
    → ((c : Context) → SafeCall c.provider (make c))
    → SafePlan (simple C command words n make)
simple-SafePlan C command words n make h =
    elim (Result-cases (parse_options_and_config C command words n false)) [
      | inr (e, k) ↦ rw k tt
      | inl (c, k) ↦ rw k (elim (Result-cases (make c)) [
        | inr (e, k') ↦ rw k' tt
        | inl (call, k') ↦ rw k' (subst (SafeCall c.provider) k' (h c))
      ])
    ]

-- A plan that fails in its check, or else is safe.
checked-SafePlan :
    {A : Type 0} (r : Flow A) (f : A → Flow Plan)
    → ((a : A) → r ≡ ok a → SafePlan (f a))
    → SafePlan (r >>= f)
checked-SafePlan (ok a) f h = h a refl
checked-SafePlan (raised e) f h = tt

checked-SafeCall :
    {A : Type 0} (provider : String) (r : Flow A) (f : A → Flow Call)
    → ((a : A) → r ≡ ok a → SafeCall provider (f a))
    → SafeCall provider (r >>= f)
checked-SafeCall provider (ok a) f h = h a refl
checked-SafeCall provider (raised e) f h = tt

plan_list-SafePlan : (C : Console) (ws : List String) → SafePlan (plan_list C ws)
unfolding plan_list
plan_list-SafePlan C ws = checked-SafePlan (parse_options C "list" ws 0 true) _ (λ parsed k.
    elim (Bool-cases (is_empty parsed.args)) [
      | inl b ↦ rw b (
          checked-SafePlan
            (get_service (get_service_name (option "service" parsed.options))
              (get_cloud_provider (option "cloud_provider" parsed.options)))
            _ (λ service _ e. (tt, tt)))
      | inr b ↦ rw b (simple-SafePlan C "list" ws 1 (λ c. ok (Call.list)) (λ c e. (tt, tt)))
    ])

plan_launch_master-SafePlan : (C : Console) (ws : List String) → SafePlan (plan_launch_master C ws)
unfolding plan_launch_master
plan_launch_master-SafePlan C ws = simple-SafePlan C "launch-master" ws 1 _ (λ c.
    checked-SafeCall c.provider (check_launch_options_set c.provider c.opt) _ (λ u k e. (
      (
        template-IsReady c.provider c.opt master_roles 1
            (check_launch_options_set-HasBoth c.provider c.opt u e k),
        tt,
      ),
      tt,
    )))

plan_launch_slaves-SafePlan : (C : Console) (ws : List String) → SafePlan (plan_launch_slaves C ws)
unfolding plan_launch_slaves
plan_launch_slaves-SafePlan C ws = simple-SafePlan C "launch-slaves" ws 2 _ (λ c.
    checked-SafeCall c.provider (number c.args 1) _ (λ n _.
      checked-SafeCall c.provider (check_launch_options_set c.provider c.opt) _ (λ u k e. (
        (
          template-IsReady c.provider c.opt slave_roles n
              (check_launch_options_set-HasBoth c.provider c.opt u e k),
          tt,
        ),
        tt,
      ))))

plan_launch_cluster-SafePlan :
    (C : Console) (ws : List String) → SafePlan (plan_launch_cluster C ws)
unfolding plan_launch_cluster
plan_launch_cluster-SafePlan C ws =
    checked-SafePlan (parse_options_and_config C "launch-cluster" ws 2 true) _ (λ c _.
      checked-SafePlan (check_launch_options_set c.provider c.opt) _ (λ u k.
        checked-SafePlan (cluster_templates c.provider c.opt c.args) _ (λ its k' e. (
          cluster_templates-IsReady c.provider c.opt c.args its
              (check_launch_options_set-HasBoth c.provider c.opt u e k) k',
          tt,
        ))))

plan_execute-SafePlan : (C : Console) (ws : List String) → SafePlan (plan_execute C ws)
unfolding plan_execute
plan_execute-SafePlan C ws =
    checked-SafePlan (parse_options_and_config C "exec" ws 2 true) _ (λ c _. λ e. (tt, tt))

plan_create_snapshot-SafePlan :
    (C : Console) (ws : List String) → SafePlan (plan_create_snapshot C ws)
unfolding plan_create_snapshot
plan_create_snapshot-SafePlan C ws = simple-SafePlan C "create-formatted-snapshot" ws 2 _ (λ c.
    checked-SafeCall c.provider (number c.args 1) _ (λ n _.
      checked-SafeCall c.provider (check_options_set c.opt ("availability_zone" ∷ "key_name" ∷ []))
        _ (λ u k e. (tt, second_set c.opt "availability_zone" "key_name" u k))))

plan_create_storage-SafePlan :
    (C : Console) (ws : List String) → SafePlan (plan_create_storage C ws)
unfolding plan_create_storage
plan_create_storage-SafePlan C ws = simple-SafePlan C "create-storage" ws 4 _ (λ c.
    checked-SafeCall c.provider (word c.args 1) _ (λ role _.
      checked-SafeCall c.provider (number c.args 2) _ (λ n _.
        checked-SafeCall c.provider (word c.args 3) _ (λ spec _.
          checked-SafeCall c.provider (check_options_set c.opt ("availability_zone" ∷ [])) _
            (λ u k e. (tt, tt))))))

plan_update_slaves_file-SafePlan :
    (C : Console) (ws : List String) → SafePlan (plan_update_slaves_file C ws)
unfolding plan_update_slaves_file
plan_update_slaves_file-SafePlan C ws = simple-SafePlan C "update-slaves-file" ws 1 _ (λ c.
    checked-SafeCall c.provider (check_options_set c.opt ("private_key" ∷ [])) _
      (λ u k e. (tt, tt)))

lookup-All :
    {V : Type 0} (Q : V → Type 0) (name : String) (d : Dict String V)
    → All (λ entry. Q entry.1) d
    → (v : V) → lookup name d ≡ some v
    → Q v
lookup-All Q name [] h v k = absurd (ground (arith, k))
lookup-All Q name ((j, u) ∷ d) (q, h) v k = elim (Bool-cases (name == j)) [
  | inl b ↦ let p : (u ≡ v) = ground (arith, b, k) in subst Q p q
  | inr b ↦ lookup-All Q name d h v (ground (arith, b, k))
]

infixr 2 ◌&◌
-- A property of the head of a list, and that of its tail.
◌&◌ {ℓ κ} : {A : Type ℓ} {B : Type κ} → A → B → A × B
a & b = (a, b)

commands-SafePlan :
    (C : Console) → All (λ entry. (ws : List String) → SafePlan (entry.1 ws)) (commands C)
unfolding commands
commands-SafePlan C =
    plan_list-SafePlan C
    & plan_launch_master-SafePlan C
    & plan_launch_slaves-SafePlan C
    & plan_launch_cluster-SafePlan C
    & (λ ws.
        simple-SafePlan C "login" ws 1 (λ c. ok (Call.login (lookup "ssh_options" c.opt)))
          (λ c e. (tt, tt)))
    & (λ ws.
        simple-SafePlan C "proxy" ws 1
          (λ c. ok (Call.proxy (lookup "ssh_options" c.opt) (lookup "proxy_port" c.opt)))
          (λ c e. (tt, tt)))
    & (λ ws.
        simple-SafePlan C "push" ws 2 _
          (λ c. checked-SafeCall c.provider (word c.args 1) _ (λ a _ e. (tt, tt))))
    & plan_execute-SafePlan C
    & (λ ws.
        simple-SafePlan C "terminate-cluster" ws 1 _
          (λ c. checked-SafeCall c.provider (forced c.opt) _ (λ a _ e. (tt, tt))))
    & (λ ws.
        simple-SafePlan C "delete-cluster" ws 1 (λ c. ok (Call.delete_cluster)) (λ c e. (tt, tt)))
    & plan_create_snapshot-SafePlan C
    & (λ ws. simple-SafePlan C "list-storage" ws 1 (λ c. ok (Call.list_storage)) (λ c e. (tt, tt)))
    & plan_create_storage-SafePlan C
    & (λ ws.
        simple-SafePlan C "attach-storage" ws 2 _
          (λ c. checked-SafeCall c.provider (word c.args 1) _ (λ a _ e. (tt, tt))))
    & (λ ws.
        simple-SafePlan C "delete-storage" ws 1 _
          (λ c. checked-SafeCall c.provider (forced c.opt) _ (λ a _ e. (tt, tt))))
    & plan_update_slaves_file-SafePlan C
    & tt

plan-SafePlan : (C : Console) (argv : List String) → SafePlan (plan C argv)
unfolding plan
plan-SafePlan C [] = tt
plan-SafePlan C (script ∷ []) = tt
plan-SafePlan C (script ∷ command ∷ words) = elim (Option-cases (lookup command (commands C))) [
  | inl k ↦ rw (k, SafePlan) tt
  | inr (run, k) ↦
      rw (k, SafePlan)
        (lookup-All (λ f. (ws : List String) → SafePlan (f ws)) command (commands C)
          (commands-SafePlan C) run k words)
]

-- Whatever the command line and the configuration are, if they lead to a call that launches instances
-- on one of the two EC2 providers, then every template of the call has a key pair, and an image if the
-- provider is `ec2`; and a call that formats a snapshot has a key pair for its instance.
pub plan-IsReady :
    (C : Console) (argv : List String) (p : Plan)
    → plan C argv ≡ ok p
    → (p.provider == "ec2" || p.provider == "cs61cec2") ≡ true
    → All (IsReady p.provider) (launched_by p.call) × IsKeyed p.call
plan-IsReady C argv p h = subst SafePlan h (plan-SafePlan C argv)
