-- ===== src/Service/Hosts.antt =====
-- What the instances of a Hadoop cluster (hadoop/cloud/service.py) read in their environment.
use mathlib.Core.Path.{subst}
use ec2_wrappers.Prelude.{String, ◌<>◌, Option, some, List, [], ◌∷◌, ◌++◌, map}
use ec2_wrappers.Prelude.{ok, ◌≡◌, refl, sym, ap, ◌∙◌, arith, All, All-append, nat_eq}
use ec2_wrappers.Prelude.{char_eq, lift, ◌>>=◌}
use ec2_wrappers.Prelude.Text.{join, <>_assoc, all_chars, has_char}
use ec2_wrappers.Util.{lines, build_env_string}
use ec2_wrappers.Util.Words.{words, plain, is_plain}
use ec2_wrappers.Util.Quoting.{
  IsSetting, IsPlainKey, assign, assign_pair, words-build_env_string, build_env_string-settings,
}
use ec2_wrappers.Storage.{Instance}
use ec2_wrappers.Service.{
  Provider, Host, World, InstanceTemplate, env_text, strings_of, quotable, add_env_strings,
  strings_or_none, host_env, sanitize_role_name, launch_instances,
}
use ec2_wrappers.Service.Hadoop.{hosts_of, launch_cluster_instances}

-- The pairs that `_launch_instances` gives to every instance.
abbrev pub common :
    List String
    → Option String
    → Option String
    → String
    → String
    → String
    → List (String × Option String)
common roles packages shutdown mappings key_id secret =
    ("ROLES", some (join "," roles))
    ∷ ("USER_PACKAGES", packages)
    ∷ ("AUTO_SHUTDOWN", shutdown)
    ∷ ("EBS_MAPPINGS", some mappings)
    ∷ ("AWS_ACCESS_KEY_ID", some key_id)
    ∷ ("AWS_SECRET_ACCESS_KEY", some secret)
    ∷ []

-- The addresses of a master, as settings.
abbrev pub host_settings : String → List String → List (String × String)
host_settings address roles = map (λ role. (sanitize_role_name role <> "_HOST", address)) roles

host_env-assign :
    (address : String) (roles : List String)
    → map (λ role. host_env role address) roles ≡ map assign (host_settings address roles)
unfolding host_env
host_env-assign address [] = refl
host_env-assign address (role ∷ roles) =
    rw (sym (<>_assoc (sanitize_role_name role) "_HOST" ("=" <> address))) (
      ap (λ hs. assign (sanitize_role_name role <> "_HOST", address) ∷ hs)
        (host_env-assign address roles))

map-append : {A B : Type 0} (f : A → B) (xs ys : List A) → map f (xs ++ ys) ≡ map f xs ++ map f ys
map-append f [] ys = refl
map-append f (x ∷ xs) ys = ap (λ zs. f x ∷ zs) (map-append f xs ys)

common-IsPlainKey :
    (roles : List String) (packages shutdown : Option String) (mappings key_id secret : String)
    → All IsPlainKey (common roles packages shutdown mappings key_id secret)
unfolding all_chars is_plain has_char char_eq
common-IsPlainKey roles packages shutdown mappings key_id secret =
    (refl, (refl, (refl, (refl, (refl, (refl, tt))))))

env_text_lem :
    (it : InstanceTemplate) (strings : List String) (packages shutdown : Option String)
    (key_id secret mappings env : String)
    → it.env_strings ≡ some (lines strings)
    → quotable it.user_packages ≡ ok packages
    → quotable it.auto_shutdown ≡ ok shutdown
    → build_env_string strings [] ≡ ok env
    → env_text it key_id secret mappings
      ≡ build_env_string strings (common it.roles packages shutdown mappings key_id secret)
unfolding env_text strings_or_none strings_of
env_text_lem it strings packages shutdown key_id secret mappings env he hp hs hb = ground arith

-- Where the options hold texts, and the environment strings are settings that bash can take, the text
-- that stands for `%ENV%` is read by bash as those settings and the common pairs.
pub env_text-words :
    (it : InstanceTemplate) (es : List (String × String)) (packages shutdown : Option String)
    (key_id secret mappings : String)
    → it.env_strings ≡ some (lines (map assign es))
    → quotable it.user_packages ≡ ok packages
    → quotable it.auto_shutdown ≡ ok shutdown
    → All IsSetting es
    → (env : String) × (env_text it key_id secret mappings ≡ ok env)
      × (words plain env
          ≡ some (
              map assign es
              ++ map assign_pair (common it.roles packages shutdown mappings key_id secret)))
env_text-words it es packages shutdown key_id secret mappings he hp hs set =
    let (alone, ha) = build_env_string-settings es set in
    let (env, hb, hw) =
      words-build_env_string es _ _ set
        (common-IsPlainKey it.roles packages shutdown mappings key_id secret) in
    (
      env,
      env_text_lem it (map assign es) packages shutdown key_id secret mappings alone he hp hs ha
          ∙ hb,
      hw,
    )

hosts_of-single :
    (m : InstanceTemplate) (i : Instance)
    → m.number ≡ 1
    → hosts_of m (some (i ∷ [])) ≡ ok (map (λ role. host_env role i.public_ip) m.roles)
unfolding hosts_of nat_eq
hosts_of-single m i hn = rw hn refl

add_env_strings-lines :
    (s : InstanceTemplate) (own hosts : List String)
    → s.env_strings ≡ some (lines own)
    → add_env_strings hosts s ≡ ok (record s { env_strings = some (lines (own ++ hosts)) })
unfolding add_env_strings strings_or_none strings_of
add_env_strings-lines s own hosts he = rw he refl

module _ (P : Provider) (H : Host) where
  launch_step :
      (it full : InstanceTemplate) (its : List InstanceTemplate) (hosts more : List String)
      (r : Option (List Instance)) (w w' : World P)
      → add_env_strings hosts it ≡ ok full
      → launch_instances P H "hadoop" full w ≡ (ok r, w')
      → hosts_of it r ≡ ok more
      → launch_cluster_instances P H (it ∷ its) hosts w
        ≡ launch_cluster_instances P H its (hosts ++ more) w'
  unfolding launch_cluster_instances
  launch_step it full its hosts more r w w' ha hl hm =
      rw (ha, ◌>>=◌, hl, ◌>>=◌, hm)
        (ap (λ p. launch_cluster_instances P H its (hosts ++ more) p.1) hl)

  launch_added :
      (it full : InstanceTemplate) (its : List InstanceTemplate) (hosts : List String) (w : World P)
      → add_env_strings hosts it ≡ ok full
      → launch_cluster_instances P H (it ∷ its) hosts w
        ≡ (launch_instances P H "hadoop" full >>= (λ r.
              lift (hosts_of it r) >>= (λ more. launch_cluster_instances P H its (hosts ++ more))))
            w
  unfolding launch_cluster_instances
  launch_added it full its hosts w ha = rw ha refl

  launch_second :
      (m m' s : InstanceTemplate) (its : List InstanceTemplate) (es : List (String × String))
      (i : Instance) (w w' : World P)
      → add_env_strings [] m ≡ ok m'
      → launch_instances P H "hadoop" m' w ≡ (ok (some (i ∷ [])), w')
      → m.number ≡ 1
      → s.env_strings ≡ some (lines (map assign es))
      → let hosts = map (λ role. host_env role i.public_ip) m.roles in
        let full = record s { env_strings = some (lines (map assign es ++ hosts)) } in
        launch_cluster_instances P H (m ∷ s ∷ its) [] w
        ≡ (launch_instances P H "hadoop" full >>= (λ r.
              lift (hosts_of s r) >>= (λ more. launch_cluster_instances P H its (hosts ++ more))))
            w'
  launch_second m m' s its es i w w' hm hl hn he =
      launch_step m m' (s ∷ its) [] _ (some (i ∷ [])) w w' hm hl (hosts_of-single m i hn)
      ∙ launch_added s _ its _ w' (add_env_strings-lines s (map assign es) _ he)

  -- Where the first template of a Hadoop cluster is for one instance and one was launched, the second
  -- template is launched with the addresses of that instance, one for each of its roles, behind its
  -- own settings. Where those settings and the names of the roles have names of letters, digits and
  -- `_` and no second `=`, and the other options are texts, bash reads each address on the second
  -- instances as `<ROLE>_HOST=<address>`.
  pub launch_cluster_instances-hosts :
      (m m' s : InstanceTemplate) (its : List InstanceTemplate) (es : List (String × String))
      (packages shutdown : Option String) (key_id secret mappings : String) (i : Instance)
      (w w' : World P)
      → add_env_strings [] m ≡ ok m'
      → launch_instances P H "hadoop" m' w ≡ (ok (some (i ∷ [])), w')
      → m.number ≡ 1
      → s.env_strings ≡ some (lines (map assign es))
      → quotable s.user_packages ≡ ok packages
      → quotable s.auto_shutdown ≡ ok shutdown
      → All IsSetting es
      → All IsSetting (host_settings i.public_ip m.roles)
      → let hosts = map (λ role. host_env role i.public_ip) m.roles in
        let full = record s { env_strings = some (lines (map assign es ++ hosts)) } in
        (launch_cluster_instances P H (m ∷ s ∷ its) [] w
          ≡ (launch_instances P H "hadoop" full >>= (λ r.
                lift (hosts_of s r) >>= (λ more. launch_cluster_instances P H its (hosts ++ more))))
              w')
        × ((env : String) × (env_text full key_id secret mappings ≡ ok env)
            × (words plain env
                ≡ some (
                    (map assign es ++ hosts)
                    ++ map assign_pair (common s.roles packages shutdown mappings key_id secret))))
  launch_cluster_instances-hosts m m' s its es packages shutdown key_id secret mappings i w w' hm hl
        hn he hp hs set set' =
      let hosts = map (λ role. host_env role i.public_ip) m.roles in
      let full = record s { env_strings = some (lines (map assign es ++ hosts)) } in
      (
        launch_second m m' s its es i w w' hm hl hn he,
        subst
            (λ hs.
              (env : String) × (env_text
                  (record s { env_strings = some (lines (map assign es ++ hs)) }) key_id secret
                  mappings
                ≡ ok env)
              × (words plain env
                  ≡ some (
                      (map assign es ++ hs)
                      ++ map assign_pair
                          (common s.roles packages shutdown mappings key_id secret))))
            (sym (host_env-assign i.public_ip m.roles))
            (subst
              (λ ss.
                (env : String) × (env_text (record s { env_strings = some (lines ss) }) key_id
                    secret mappings
                  ≡ ok env)
                × (words plain env
                    ≡ some (
                        ss
                        ++ map assign_pair
                            (common s.roles packages shutdown mappings key_id secret))))
              (map-append assign es (host_settings i.public_ip m.roles))
              (env_text-words _ (es ++ host_settings i.public_ip m.roles) packages shutdown key_id
                secret mappings refl hp hs
                (All-append IsSetting es (host_settings i.public_ip m.roles) set set'))),
      )
