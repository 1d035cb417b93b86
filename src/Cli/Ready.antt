-- ===== src/Cli/Ready.antt =====
-- The templates that the command line (hadoop/cloud/cli.py) makes ready for a launch.
use ec2_wrappers.Prelude.{ℕ, true, String, none, some, List, [], ◌∷◌, ok}
use ec2_wrappers.Prelude.{◌≡◌, arith, All, Option-cases, inl, inr}
use ec2_wrappers.Prelude.{◌==◌, string_eq, ◌||◌, Bool, Bool-cases, Option, not}
use ec2_wrappers.Prelude.Dict.{Dict, lookup}
use ec2_wrappers.Util.{Value}
use ec2_wrappers.Service.{InstanceTemplate}
use ec2_wrappers.Cli.{
  Call, check_options_set, check_launch_options_set, get_image_id, template, shifted_template,
  cluster_templates,
}
use ec2_wrappers.Cli.Shifted.{cluster_templates-All}

-- The templates that a call launches.
abbrev pub launched_by : Call → List InstanceTemplate
launched_by (Call.launch_master it config_dir cidr) = it ∷ []
launched_by (Call.launch_slaves it) = it ∷ []
launched_by (Call.launch_cluster its config_dir cidr proxy_port) = its
launched_by other = []

-- Whether there is an image, where the provider asks for one.
abbrev pub has_image : String → Option Value → Bool
has_image provider none = not (provider == "ec2")
has_image provider (some image) = true

-- The instances get a key pair, and for the provider `ec2` an image.
abbrev pub IsReady : String → InstanceTemplate → Type 0
IsReady provider it =
    ((key : Value) × (it.key_name ≡ some key)) × (has_image provider it.image_id ≡ true)

abbrev pub IsEc2 : String → Type 0
IsEc2 provider = (provider == "ec2" || provider == "cs61cec2") ≡ true

-- The instance that formats a snapshot gets a key pair; its image is that of the program.
abbrev pub IsKeyed : Call → Type 0
IsKeyed (Call.create_formatted_snapshot size place image key_name ssh_options) =
    (key : Value) × (key_name ≡ some key)
IsKeyed other = Unit

abbrev pub IsSafe : String → Call → Type 0
IsSafe provider call = IsEc2 provider → All (IsReady provider) (launched_by call) × IsKeyed call

-- Two options that must be set: the second is.
pub second_set :
    (opt : Dict String Value) (a b : String) (u : Unit {0})
    → check_options_set opt (a ∷ b ∷ []) ≡ ok u
    → (key : Value) × (lookup b opt ≡ some key)
unfolding check_options_set
second_set opt a b u h = elim (Option-cases (lookup b opt)) [
  | inl k ↦ absurd (ground (arith, k, h))
  | inr (key, k) ↦ (key, k)
]

-- The options from which a template is made ready.
abbrev pub HasBoth : String → Dict String Value → Type 0
HasBoth provider opt =
    ((key : Value) × (lookup "key_name" opt ≡ some key))
    × (has_image provider (get_image_id provider opt) ≡ true)

check_options_set-key :
    (opt : Dict String Value) (u : Unit {0})
    → check_options_set opt ("key_name" ∷ []) ≡ ok u
    → (key : Value) × (lookup "key_name" opt ≡ some key)
unfolding check_options_set
check_options_set-key opt u h = elim (Option-cases (lookup "key_name" opt)) [
  | inl k ↦ absurd (ground (arith, k))
  | inr (key, k) ↦ (key, k)
]

checked :
    (provider : String) (opt : Dict String Value) (u : Unit {0})
    → IsEc2 provider
    → check_launch_options_set provider opt ≡ ok u
    → (check_options_set opt ("key_name" ∷ []) ≡ ok u)
      × ((lookup "image_id" opt ≡ none) → (lookup "ami" opt ≡ none) → ⊥)
unfolding check_launch_options_set
checked provider opt u e h = (ground arith, λ a b. ground (arith, a, b))

image_given :
    (provider : String) (opt : Dict String Value)
    → ((lookup "image_id" opt ≡ none) → (lookup "ami" opt ≡ none) → ⊥)
    → has_image provider (get_image_id provider opt) ≡ true
unfolding get_image_id
image_given provider opt n = elim (Bool-cases (provider == "ec2")) [
  | inl b ↦ elim (Option-cases (lookup "image_id" opt)) [
    | inr (image, i) ↦ ground (arith, b, i)
    | inl i ↦ elim (Option-cases (lookup "ami" opt)) [
      | inr (image, j) ↦ ground (arith, b, i, j)
      | inl j ↦ absurd (n i j)
    ]
  ]
  | inr b ↦ elim (Option-cases (lookup "image_id" opt)) [
    | inr (image, i) ↦ ground (arith, b, i)
    | inl i ↦ ground (arith, b, i)
  ]
]

pub check_launch_options_set-HasBoth :
    (provider : String) (opt : Dict String Value) (u : Unit {0})
    → IsEc2 provider
    → check_launch_options_set provider opt ≡ ok u
    → HasBoth provider opt
check_launch_options_set-HasBoth provider opt u e h =
    let (k, n) = checked provider opt u e h in
    (check_options_set-key opt u k, image_given provider opt n)

pub template-IsReady :
    (provider : String) (opt : Dict String Value) (roles : List String) (n : ℕ)
    → HasBoth provider opt
    → IsReady provider (template provider opt roles n)
unfolding template
template-IsReady provider opt roles n h = h

shifted_template-IsReady :
    (provider : String) (opt : Dict String Value) (roles : List String) (n : ℕ)
    → HasBoth provider opt
    → IsReady provider (shifted_template provider opt roles n)
unfolding shifted_template
shifted_template-IsReady provider opt roles n h = h

pub cluster_templates-IsReady :
    (provider : String) (opt : Dict String Value) (args : List String) (its : List InstanceTemplate)
    → HasBoth provider opt
    → cluster_templates provider opt args ≡ ok its
    → All (IsReady provider) its
cluster_templates-IsReady provider opt args its h =
    cluster_templates-All provider opt (IsReady provider)
      (λ roles n. shifted_template-IsReady provider opt roles n h) args its
