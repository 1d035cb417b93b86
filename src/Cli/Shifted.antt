-- ===== src/Cli/Shifted.antt =====
-- The templates of `launch-cluster` (hadoop/cloud/cli.py).
use mathlib.Core.Path.{subst}
use ec2_wrappers.Prelude.{ℕ, String, Option, some, List, [], ◌∷◌, Result, ok, raised}
use ec2_wrappers.Prelude.{◌≡◌, refl, sym, ap, ◌∙◌, All, Bool-cases, Result-cases, inl, inr}
use ec2_wrappers.Prelude.{length, ltb, nat_eq, ◌==◌, ◌&&◌, ◌%◌}
use ec2_wrappers.Prelude.Fails.{Fails, Fails-elim}
use ec2_wrappers.Prelude.Runs.{Runs, Runs-bind, Runs-lift, Holds, Anything, Holds-Anything}
use ec2_wrappers.Prelude.{Bool, true, false, none, Exn, Exec, return, or_raise, key_error}
use ec2_wrappers.Prelude.Dict.{Dict, lookup}
use ec2_wrappers.Prelude.{lift, ◌>>=◌, string_eq}
use ec2_wrappers.Util.{Value, lines, build_env_string}
use ec2_wrappers.Service.{
  InstanceTemplate, Provider, Host, World, on, env_text, quotable, launch_instances, ebs_mappings,
  environ, add_env_strings, strings_or_none, start_instances,
}
use ec2_wrappers.Service.Hadoop.{Polls, hosts_of, launch_cluster_instances}
use ec2_wrappers.Service.Hadoop.Launching.{launch_cluster, prepare_cluster}
use ec2_wrappers.Cli.{
  shifted_template, cluster_templates, number, templates_of, pairs_of, paired, master_roles,
  slave_roles,
}

-- A statement about every template of a result that is no exception.
abbrev AllOk : (InstanceTemplate → Type 0) → Result (List InstanceTemplate) → Type 0
AllOk Q (ok its) = All Q its
AllOk Q (raised e) = Unit

module _ (provider : String) (opt : Dict String Value) (Q : InstanceTemplate → Type 0) where
  templates_of-All :
      ((roles : List String) (n : ℕ) → Q (shifted_template provider opt roles n))
      → (pairs : List (ℕ × List String)) → All Q (templates_of provider opt pairs)
  templates_of-All q [] = tt
  templates_of-All q ((n, roles) ∷ pairs) = (q roles n, templates_of-All q pairs)

  paired-AllOk :
      ((roles : List String) (n : ℕ) → Q (shifted_template provider opt roles n))
      → (args : List String) → AllOk Q (paired provider opt args)
  paired-AllOk q [] = tt
  paired-AllOk q (cluster ∷ rest) = elim (Result-cases (pairs_of rest)) [
    | inl (pairs, k) ↦ rw (k, AllOk) (templates_of-All q pairs)
    | inr (e, k) ↦ rw (k, AllOk) tt
  ]

  cluster_templates-AllOk :
      ((roles : List String) (n : ℕ) → Q (shifted_template provider opt roles n))
      → (args : List String) → AllOk Q (cluster_templates provider opt args)
  unfolding cluster_templates
  cluster_templates-AllOk q args = elim (Bool-cases (length args == 2)) [
    | inl b ↦ rw b (elim (Result-cases (number args 1)) [
      | inl (n, k) ↦ rw k (q master_roles 1, (q slave_roles n, tt))
      | inr (e, k) ↦ rw k tt
    ])
    | inr b ↦ rw b (elim (Bool-cases (ltb 2 (length args) && (length args % 2 == 0))) [
      | inl c ↦ rw c tt
      | inr c ↦ rw c (paired-AllOk q args)
    ])
  ]

  -- Every template of `launch-cluster` is one that the code makes.
  pub cluster_templates-All :
      ((roles : List String) (n : ℕ) → Q (shifted_template provider opt roles n))
      → (args : List String) (its : List InstanceTemplate)
      → cluster_templates provider opt args ≡ ok its
      → All Q its
  cluster_templates-All q args its e = subst (AllOk Q) e (cluster_templates-AllOk q args)

-- The fields that `launch-cluster` fills with the option of their neighbour.
abbrev pub IsShifted : Dict String Value → InstanceTemplate → Type 0
IsShifted opt it =
    (it.user_data_file_template ≡ lookup "availability_zone" opt)
    × (it.placement ≡ lookup "user_packages" opt)
    × (it.user_packages ≡ lookup "auto_shutdown" opt)
    × (it.auto_shutdown ≡ lookup "env" opt)
    × (it.env_strings ≡ lookup "security_group" opt)

shifted_template-IsShifted :
    (provider : String) (opt : Dict String Value) (roles : List String) (n : ℕ)
    → IsShifted opt (shifted_template provider opt roles n)
unfolding shifted_template
shifted_template-IsShifted provider opt roles n = (refl, refl, refl, refl, refl)

-- There is no text for `%ENV%` where the time of shutdown is a list of texts.
env_text-Fails :
    (it : InstanceTemplate) (ss : List String) (key_id secret mappings : String)
    → it.auto_shutdown ≡ some (lines ss)
    → Fails (env_text it key_id secret mappings)
unfolding env_text quotable
env_text-Fails it ss key_id secret mappings h =
    Fails-elim (strings_or_none it.env_strings) _ (λ strings.
      Fails-elim (build_env_string strings []) _
        (λ _. Fails-elim (quotable it.user_packages) _ (λ packages. rw h tt)))

auto_shutdown_after : Result InstanceTemplate → Option Value → Option Value
auto_shutdown_after (ok it) v = it.auto_shutdown
auto_shutdown_after (raised e) v = v

kept_shutdown :
    (hosts : List String) (it : InstanceTemplate)
    → auto_shutdown_after (add_env_strings hosts it) it.auto_shutdown ≡ it.auto_shutdown
unfolding add_env_strings auto_shutdown_after
kept_shutdown hosts it = elim (Result-cases (strings_or_none it.env_strings)) [
  | inl (own, k) ↦ rw (k, auto_shutdown_after) refl
  | inr (x, k) ↦ rw (k, auto_shutdown_after) refl
]

add_env_strings-auto_shutdown :
    (hosts : List String) (it full : InstanceTemplate)
    → add_env_strings hosts it ≡ ok full
    → full.auto_shutdown ≡ it.auto_shutdown
unfolding auto_shutdown_after
add_env_strings-auto_shutdown hosts it full e =
    sym (ap (λ r. auto_shutdown_after r it.auto_shutdown) e) ∙ kept_shutdown hosts it

-- A result that is never given.
abbrev pub Nothing : {A : Type 0} → A → Type 0
Nothing a = ⊥

Fails-Holds : {A : Type 0} (r : Result A) → Fails r → Holds Nothing r
Fails-Holds (ok a) h = h
Fails-Holds (raised e) h = tt

Holds-ok : {A : Type 0} (r : Result A) → Holds (λ a. r ≡ ok a) r
Holds-ok (ok a) = refl
Holds-ok (raised e) = tt

-- `I` is what is kept of the provider by the questions about its storage.
module _ (P : Provider) (H : Host) (I : P.World → Type 0)
    (has_storage : (roles : List String) → Runs I (P.has_any_storage roles) Anything)
    (has_mappings : (role : String) → Runs I (P.get_mappings_string_for_role role) Anything) where
  abbrev Kept : World P → Type 0
  Kept w = I w.cluster

  on-Runs : {A : Type 0} (m : Exec P.World A) → Runs I m Anything → Runs Kept (on P m) Anything
  unfolding Runs
  on-Runs m h w i = ((h w.cluster i).0, Holds-Anything (m w.cluster).0)

  mappings-Runs :
      (has : Bool) (role mappings : String)
      → Runs Kept
          (elim has [ true ↦ on P (P.get_mappings_string_for_role role) | false ↦ return mappings ])
          Anything
  mappings-Runs true role mappings =
      on-Runs (P.get_mappings_string_for_role role) (has_mappings role)
  mappings-Runs false role mappings = Runs-lift Kept Anything (ok mappings) tt

  ebs_mappings-Runs :
      (roles : List String) (mappings : String)
      → Runs Kept (ebs_mappings P H roles mappings) Anything
  unfolding ebs_mappings
  ebs_mappings-Runs [] mappings = Runs-lift Kept Anything (ok mappings) tt
  ebs_mappings-Runs (role ∷ roles) mappings =
      Runs-bind Kept Anything Anything _ _
        (on-Runs (P.has_any_storage (role ∷ [])) (has_storage (role ∷ [])))
        (λ has _.
          Runs-bind Kept Anything Anything _ _ (mappings-Runs has role mappings)
            (λ found _. ebs_mappings-Runs roles found))

  or_raise-Runs : {A : Type 0} (o : Option A) (e : Exn) → Runs Kept (or_raise o e) Anything
  or_raise-Runs none e = Runs-lift Kept Anything (raised e) tt
  or_raise-Runs (some a) e = Runs-lift Kept Anything (ok a) tt

  launch_instances-Runs :
      (service : String) (it : InstanceTemplate) (ss : List String)
      → it.auto_shutdown ≡ some (lines ss)
      → Runs Kept (launch_instances P H service it) Nothing
  unfolding launch_instances
  launch_instances-Runs service it ss h =
      let with_secret = λ (mappings key_id secret : String).
        lift (env_text it key_id secret mappings) >>= start_instances P H service it in
      let with_key = λ (mappings key_id : String).
        environ P H "AWS_SECRET_ACCESS_KEY" >>= with_secret mappings key_id in
      let with_mappings =
        λ (mappings : String). environ P H "AWS_ACCESS_KEY_ID" >>= with_key mappings in
      Runs-bind Kept Anything Nothing (ebs_mappings P H it.roles "") with_mappings
        (ebs_mappings-Runs it.roles "")
        (λ mappings _.
          Runs-bind Kept Anything Nothing (environ P H "AWS_ACCESS_KEY_ID") (with_key mappings)
            (or_raise-Runs (H.environ "AWS_ACCESS_KEY_ID") (key_error "AWS_ACCESS_KEY_ID"))
            (λ key_id _.
              Runs-bind Kept Anything Nothing (environ P H "AWS_SECRET_ACCESS_KEY")
                (with_secret mappings key_id)
                (or_raise-Runs (H.environ "AWS_SECRET_ACCESS_KEY")
                  (key_error "AWS_SECRET_ACCESS_KEY"))
                (λ secret _.
                  Runs-bind Kept Nothing Nothing (lift (env_text it key_id secret mappings))
                    (start_instances P H service it)
                    (Runs-lift Kept Nothing (env_text it key_id secret mappings)
                      (Fails-Holds _ (env_text-Fails it ss key_id secret mappings h)))
                    (λ env k. absurd k))))

  launch_cluster_instances-Runs :
      (it : InstanceTemplate) (its : List InstanceTemplate) (ss : List String)
      → it.auto_shutdown ≡ some (lines ss)
      → Runs Kept (launch_cluster_instances P H (it ∷ its) []) Nothing
  unfolding launch_cluster_instances
  launch_cluster_instances-Runs it its ss h =
      let rest = λ (hosts : List String). launch_cluster_instances P H its hosts in
      let launch = λ (full : InstanceTemplate).
        launch_instances P H "hadoop" full >>= (λ r. lift (hosts_of it r) >>= rest) in
      Runs-bind Kept (λ full. add_env_strings [] it ≡ ok full) Nothing
        (lift (add_env_strings [] it)) launch
        (Runs-lift Kept _ (add_env_strings [] it) (Holds-ok (add_env_strings [] it)))
        (λ full e.
          Runs-bind Kept Nothing Nothing (launch_instances P H "hadoop" full)
            (λ r. lift (hosts_of it r) >>= rest)
            (launch_instances-Runs "hadoop" full ss
              (add_env_strings-auto_shutdown [] it full e ∙ h))
            (λ r k. absurd k))

  -- With `--env` on the command line, which is a list of texts, the cluster that `launch-cluster` asks
  -- for is never launched: the list is taken for the time of shutdown of every template, and the call
  -- raises. Whatever is true of the provider and kept by its answers about its storage is kept by the
  -- call, which asks the provider for nothing else, and so for no instance.
  pub launch_cluster-env :
      (provider : String) (opt : Dict String Value) (args : List String) (it : InstanceTemplate)
      (its : List InstanceTemplate) (ss : List String) (fuel : ℕ) (polls : Polls)
      (config_dir : String) (cidr : Option Value) (proxy_port : String)
      → cluster_templates provider opt args ≡ ok (it ∷ its)
      → lookup "env" opt ≡ some (lines ss)
      → All (IsShifted opt) (it ∷ its)
        × ((w : World P)
            → I w.cluster
            → I (launch_cluster P H fuel polls (it ∷ its) config_dir cidr proxy_port w).1.cluster
              × Holds Nothing
                  (launch_cluster P H fuel polls (it ∷ its) config_dir cidr proxy_port w).0)
  unfolding launch_cluster Runs
  launch_cluster-env provider opt args it its ss fuel polls config_dir cidr proxy_port e h =
      let (shifted, rest) =
        cluster_templates-All provider opt (IsShifted opt)
          (λ roles n. shifted_template-IsShifted provider opt roles n) args (it ∷ its) e in
      (
        (shifted, rest),
        Runs-bind Kept Nothing Nothing (launch_cluster_instances P H (it ∷ its) [])
            (λ _. prepare_cluster P H fuel polls (it ∷ its) config_dir cidr proxy_port)
            (launch_cluster_instances-Runs it its ss (shifted.3 ∙ h)) (λ _ k. absurd k),
      )
