-- ===== src/Service/Slaves.antt =====
-- What the slaves of a Hadoop cluster (hadoop/cloud/service.py) read about their master.
use mathlib.Core.List.{append-nil, append_assoc}
use ec2_wrappers.Prelude.{Char, String, Bool, true, false, ◌||◌, some, List, [], ◌∷◌, ◌++◌, map}
use ec2_wrappers.Prelude.{
  ok, ◌≡◌, refl, sym, ap, ◌∙◌, arith, contains, contains-append, string_eq, ◌==◌,
}
use ec2_wrappers.Prelude.{==_of_ne, return, ◌>>=◌, ◌>>◌}
use ec2_wrappers.Prelude.Text.{char}
use ec2_wrappers.Util.{lines}
use ec2_wrappers.Storage.{Instance, characters, concat}
use ec2_wrappers.Service.{
  Provider, Host, World, InstanceTemplate, add_env_strings, host_env, launch_instances,
  check_running, strings_or_none, strings_of, first,
}
use ec2_wrappers.Service.Hadoop.{namenode, secondary_namenode, jobtracker, get_first, attach_all}
use ec2_wrappers.Service.Hadoop.Launching.{add_master, launch_slaves}

-- What the slaves get for the address of the master: characters.
abbrev pub pieces : String → List String → List String
pieces address roles = concat (map (λ role. characters (host_env role address)) roles)

abbrev pub with_strings : InstanceTemplate → List String → InstanceTemplate
with_strings it strings = record it { env_strings = some (lines strings) }

add_master_more :
    (address : String) (roles own : List String) (it : InstanceTemplate)
    → it.env_strings ≡ some (lines own)
    → add_master address roles it ≡ ok (with_strings it (own ++ pieces address roles))
unfolding add_master add_env_strings strings_or_none strings_of
add_master_more address [] own it he =
    ap (λ e. ok (record it { env_strings = e }))
      (he ∙ ap (λ ss. some (lines ss)) (sym (append-nil own)))
add_master_more address (role ∷ roles) own it he =
    rw (he, add_master)
      (add_master_more address roles (own ++ characters (host_env role address))
          (with_strings it (own ++ characters (host_env role address))) refl
        ∙ ap (λ ss. ok (with_strings it ss))
            (append_assoc own (characters (host_env role address)) (pieces address roles)))

-- The settings of the template are a list of texts, or there are none.
add_master_lem :
    (address role : String) (roles own : List String) (it : InstanceTemplate)
    → strings_or_none it.env_strings ≡ ok own
    → add_master address (role ∷ roles) it
      ≡ ok (with_strings it (own ++ pieces address (role ∷ roles)))
unfolding add_master add_env_strings
add_master_lem address role roles own it he =
    rw (he, add_master)
      (add_master_more address roles (own ++ characters (host_env role address))
          (with_strings it (own ++ characters (host_env role address))) refl
        ∙ ap (λ ss. ok (with_strings it ss))
            (append_assoc own (characters (host_env role address)) (pieces address roles)))

is_pair : String → Bool
is_pair (String.◌∷◌ c (String.◌∷◌ d s)) = true
is_pair other = false

char-ne-pair : (c d x : Char) (s : String) → (String.◌∷◌ c (String.◌∷◌ d s) == char x) ≡ false
unfolding is_pair
char-ne-pair c d x s = ==_of_ne _ _ (λ h. let e : (true ≡ false) = ap is_pair h in ground arith)

contains-characters :
    (c d : Char) (s t : String) → contains (characters t) (String.◌∷◌ c (String.◌∷◌ d s)) ≡ false
unfolding characters
contains-characters c d s String.[] = refl
contains-characters c d s (String.◌∷◌ x t) = rw (char-ne-pair c d x s) (contains-characters c d s t)

contains-pieces :
    (address : String) (roles : List String) (c d : Char) (s : String)
    → contains (pieces address roles) (String.◌∷◌ c (String.◌∷◌ d s)) ≡ false
contains-pieces address [] c d s = refl
contains-pieces address (role ∷ roles) c d s =
    contains-append (characters (host_env role address)) (pieces address roles) _
    ∙ rw (contains-characters c d s (host_env role address)) (contains-pieces address roles c d s)

or_false : (b : Bool) → (b || false) ≡ b
or_false true = refl
or_false false = refl

contains-own :
    (own : List String) (address : String) (roles : List String) (c d : Char) (s : String)
    → let setting = String.◌∷◌ c (String.◌∷◌ d s) in
      contains (own ++ pieces address roles) setting ≡ contains own setting
contains-own own address roles c d s =
    contains-append own (pieces address roles) _
    ∙ ap (λ b. contains own (String.◌∷◌ c (String.◌∷◌ d s)) || b)
        (contains-pieces address roles c d s)
    ∙ or_false _

abbrev masters : List String
masters = namenode ∷ secondary_namenode ∷ jobtracker ∷ []

module _ (P : Provider) (H : Host) where
  -- For a template whose environment strings are a list of texts or missing, `launch-slaves` with one
  -- running master adds nothing but single characters to the environment
  -- strings of the slaves: every string of two characters or more is among them only if the template
  -- had it, so that no slave is given a setting such as `NN_HOST=<address>`.
  pub launch_slaves-pieces :
      (it : InstanceTemplate) (own : List String) (i : Instance) (w w' : World P)
      → strings_or_none it.env_strings ≡ ok own
      → check_running P namenode 1 w ≡ (ok (some (i ∷ [])), w')
      → (strings : List String) × (launch_slaves P H it w
          ≡ (launch_instances P H "hadoop" (with_strings it strings)
                >> (attach_all P H it.roles >> (get_first P H jobtracker >> return tt)))
              w')
        × ((c d : Char) (s : String)
            → let setting = String.◌∷◌ c (String.◌∷◌ d s) in
              contains strings setting ≡ contains own setting)
  unfolding launch_slaves first
  launch_slaves-pieces it own i w w' he hc = (
    own ++ pieces i.public_ip masters,
    rw
        (
          hc,
          ◌>>=◌,
          add_master_lem i.public_ip namenode (secondary_namenode ∷ jobtracker ∷ []) own it he,
          ◌>>=◌,
        )
        (ap
          (λ p.
            (launch_instances P H "hadoop" (with_strings it (own ++ pieces i.public_ip masters))
                >> (attach_all P H it.roles >> (get_first P H jobtracker >> return tt)))
              p.1)
          hc),
    contains-own own i.public_ip masters,
  )
