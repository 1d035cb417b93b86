-- ===== src/Service/Templates.antt =====
-- The templates of instances (hadoop/cloud/service.py). Their fields hold what the options hold, which
-- may be a text, a list, a flag or a number (Util).
use ec2_wrappers.Prelude.{ℕ, false, String, ◌<>◌, Option, none, some, List, [], ◌∷◌, ◌++◌}
use ec2_wrappers.Prelude.{Result, ok, raised, type_error, attribute_error, zero}
use ec2_wrappers.Prelude.Text.{join, replace}
use ec2_wrappers.Prelude.Number.{upper}
use ec2_wrappers.Util.{Value, text, lines, flag, port, build_env_string}
use ec2_wrappers.Storage.{characters}

pub record InstanceTemplate : Type 0 where
  pub roles : List String
  pub number : ℕ
  pub image_id : Option Value
  pub size_id : Option Value
  pub key_name : Option Value
  pub public_key : Option Value
  pub private_key : Option Value
  pub user_data_file_template : Option Value
  pub placement : Option Value
  pub user_packages : Option Value
  pub auto_shutdown : Option Value
  pub env_strings : Option Value
  pub security_groups : Option Value

-- `for s in value`: a text iterates as its characters.
unfoldable pub strings_of : Value → Result (List String)
strings_of (text s) = ok (characters s)
strings_of (lines ss) = ok ss
strings_of (flag b) = raised type_error
strings_of (port n) = raised type_error

-- `list(value or [])`, and what `if value: for s in value` goes through
unfoldable pub strings_or_none : Option Value → Result (List String)
strings_or_none none = ok []
strings_or_none (some (flag false)) = ok []
strings_or_none (some (port zero)) = ok []
strings_or_none (some value) = strings_of value

unfoldable pub add_env_strings : List String → InstanceTemplate → Result InstanceTemplate
add_env_strings env_strings it = elim (strings_or_none it.env_strings) [
  | raised e ↦ raised e
  | ok own ↦ ok (record it { env_strings = some (lines (own ++ env_strings)) })
]

-- What `bash_quote` takes: a text or `None`; nothing else has a method `replace`.
unfoldable pub quotable : Option Value → Result (Option String)
quotable none = ok none
quotable (some (text s)) = ok (some s)
quotable (some other) = raised attribute_error

-- The text for `%ENV%`. The first loop of `build_env_string` runs before the values of the second are
-- looked at.
unfoldable pub env_text : InstanceTemplate → String → String → String → Result String
env_text it key_id secret mappings = elim (strings_or_none it.env_strings) [
  | raised e ↦ raised e
  | ok strings ↦ elim (build_env_string strings []) [
    | raised e ↦ raised e
    | ok _ ↦ elim (quotable it.user_packages) [
      | raised e ↦ raised e
      | ok packages ↦ elim (quotable it.auto_shutdown) [
        | raised e ↦ raised e
        | ok shutdown ↦ build_env_string strings (
            ("ROLES", some (join "," it.roles))
            ∷ ("USER_PACKAGES", packages)
            ∷ ("AUTO_SHUTDOWN", shutdown)
            ∷ ("EBS_MAPPINGS", some mappings)
            ∷ ("AWS_ACCESS_KEY_ID", some key_id)
            ∷ ("AWS_SECRET_ACCESS_KEY", some secret)
            ∷ [])
      ]
    ]
  ]
]

-- `role.replace('+', '_').upper()`
unfoldable pub sanitize_role_name : String → String
sanitize_role_name role = upper (replace "+" "_" role)

-- `"%s_HOST=%s"`
unfoldable pub host_env : String → String → String
host_env role address = sanitize_role_name role <> ("_HOST=" <> address)
