-- ===== src/Cluster/Names.antt =====
-- The names of security groups (hadoop/cloud/providers/ec2.py).
use ec2_wrappers.Prelude.{Bool, true, false, String, ◌<>◌, Option, none, some, List, [], Char, code}
use ec2_wrappers.Prelude.{
  ◌&&◌, ◌||◌, not, leb, select, contains, string_eq, char_eq, ◌==◌, if◌then◌else◌,
}
use ec2_wrappers.Prelude.Text.{ends_with}
use ec2_wrappers.Ec2.{Instance}

-- `[a-zA-Z0-9_+]`
unfoldable pub is_role_char : Char → Bool
is_role_char c =
    let n = code c in
    ("_" == c)
    || (("+" == c)
        || ((leb b'a' n && leb n b'z')
            || ((leb b'A' n && leb n b'Z') || (leb b'0' n && leb n b'9'))))

unfoldable pub is_end : String → Bool
is_end String.[] = true
is_end (String.◌∷◌ c s) = false

-- `[a-zA-Z0-9_+]*$`, where `$` also matches before a newline at the end.
unfoldable pub is_role_end : String → Bool
is_role_end String.[] = true
is_role_end (String.◌∷◌ c s) = (is_role_char c && is_role_end s) || ("\n" == c && is_end s)

-- `^[a-zA-Z0-9_+]+$`
unfoldable pub is_role_name : String → Bool
is_role_name String.[] = false
is_role_name (String.◌∷◌ c s) = is_role_char c && is_role_end s

unfoldable pub role_group : String → String → String
role_group name role = name <> ("-" <> role)

-- `state_filter == None or instance.state == state_filter`
unfoldable pub has_state : Option String → Instance → Bool
has_state none i = true
has_state (some state) i = i.state == state

-- `group.id.endswith("-" + role)`
unfoldable pub is_role_group : String → String → Bool
is_role_group role group = ends_with group ("-" <> role)

-- `re.sub("-%s$" % re.escape(role), "", group)`, for a group that ends so: it takes the end off.
unfoldable pub cluster_of_group : String → String → String
cluster_of_group role String.[] = ""
cluster_of_group role (String.◌∷◌ c s) =
    if ("-" <> role) == String.◌∷◌ c s then "" else String.◌∷◌ c (cluster_of_group role s)

-- `(-[a-zA-Z0-9_+]+)?$`
unfoldable pub is_group_end : String → Bool
is_group_end String.[] = true
is_group_end (String.◌∷◌ c s) = ("\n" == c && is_end s) || ("-" == c && is_role_name s)

-- `^<name>(-[a-zA-Z0-9_+]+)?$`, for a name without characters that a regular expression reads
-- otherwise.
unfoldable pub is_group_of : String → String → Bool
is_group_of String.[] group = is_group_end group
is_group_of (String.◌∷◌ c name) String.[] = false
is_group_of (String.◌∷◌ c name) (String.◌∷◌ d group) = (c == d) && is_group_of name group

unfoldable pub groups_for_cluster : String → List String → List String
groups_for_cluster name all_group_names =
    if not (contains all_group_names name) then [] else select (is_group_of name) all_group_names
