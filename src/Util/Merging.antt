-- ===== src/Util/Merging.antt =====
-- Which value `merge_config_with_options` (hadoop/cloud/util.py) gives an option.
use mathlib.Core.Option
use ec2_wrappers.Prelude.{◌≡◌, refl, String, Option, none, some, [], ◌∷◌, arith, string_eq}
use ec2_wrappers.Prelude.Dict.{Dict, lookup, insert, NodupKeys, lookup-insert}
use ec2_wrappers.Util.{Value, config_value, config_loop, option_loop, merge_config_with_options}

-- The value of the first option that is given and is not `None`, and else the other one.
abbrev pub given_or : Option (Option Value) → Option Value → Option Value
given_or (some (some v)) other = some v
given_or (some none) other = other
given_or none other = other

-- What the section of the configuration file says of a key.
abbrev pub configured : Option (Dict String String) → String → Option Value
configured none key = none
configured (some section) key = Option.map config_value (lookup key section)

lookup-config_loop :
    (k : String) (section : Dict String String) (res : Dict String Value)
    → NodupKeys section
    → lookup k (config_loop section res)
      ≡ given_or (Option.map some (configured (some section) k)) (lookup k res)
unfolding config_loop
lookup-config_loop k [] res u = refl
lookup-config_loop k ((j, v) ∷ rest) res (fresh, u) = ground (
  arith,
  lookup-config_loop k rest (insert j (config_value v) res) u,
  lookup-insert k j (config_value v) res,
)

lookup-option_loop :
    (k : String) (options : Dict String (Option Value)) (res : Dict String Value)
    → NodupKeys options
    → lookup k (option_loop options res) ≡ given_or (lookup k options) (lookup k res)
unfolding option_loop
lookup-option_loop k [] res u = refl
lookup-option_loop k ((j, none) ∷ rest) res (fresh, u) =
    ground (arith, lookup-option_loop k rest res u)
lookup-option_loop k ((j, some v) ∷ rest) res (fresh, u) =
    ground (arith, lookup-option_loop k rest (insert j v res) u, lookup-insert k j v res)

-- The section's keys, where there is a section.
abbrev pub NodupSection : Option (Dict String String) → Type 0
NodupSection none = Unit
NodupSection (some section) = NodupKeys section

-- In the merged dict a key has the value of its option, if the option is given and is not `None`,
-- and otherwise what the section of the configuration file says of the key, if anything. Neither
-- dict holds a key twice.
pub lookup-merge_config_with_options :
    (k : String) (section : Option (Dict String String)) (options : Dict String (Option Value))
    → NodupSection section
    → NodupKeys options
    → lookup k (merge_config_with_options section options)
      ≡ given_or (lookup k options) (configured section k)
unfolding merge_config_with_options
lookup-merge_config_with_options k none options _ u = lookup-option_loop k options [] u
lookup-merge_config_with_options k (some section) options v u = ground (
  arith,
  lookup-option_loop k options (config_loop section []) u,
  lookup-config_loop k section [] v,
)
