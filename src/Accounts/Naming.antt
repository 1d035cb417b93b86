-- ===== src/Accounts/Naming.antt =====
-- The names of key pairs and the ports of proxies (subaccounts.py).
use ec2_wrappers.Prelude.{ℕ, ◌+◌, ◌-◌, ◌*◌, Bool, String, ◌<>◌, Char, code, List, [], ◌∷◌, Result}
use ec2_wrappers.Prelude.{ok, raised, not, ◌&&◌, ◌||◌, leb, index_error, char_eq, ◌==◌}
use ec2_wrappers.Prelude.{if◌then◌else◌}
use ec2_wrappers.Prelude.Text.{starts_with, char}

-- The characters that `create_ssh_key` keeps: `[-a-zA-Z0-9_]`.
unfoldable pub is_key_char : Char → Bool
is_key_char c =
    let n = code c in
    ("-" == c)
    || (("_" == c)
        || ((leb b'a' n && leb n b'z')
            || ((leb b'A' n && leb n b'Z') || (leb b'0' n && leb n b'9'))))

-- `re.sub(r'[^-a-zA-Z0-9_]', '', key_name)`
unfoldable pub clean : String → String
clean String.[] = ""
clean (String.◌∷◌ c s) = (if is_key_char c then char c else "") <> clean s

-- The name under which `create_ssh_key` asks EC2 for a key pair.
unfoldable pub full_key_name : String → String → String
full_key_name user_name key_name =
    let name = clean key_name in
    if not (starts_with name (user_name <> "-")) then user_name <> ("-" <> name) else name

-- `user_name[-2:]`
unfoldable pub last_two : String → List Char
last_two String.[] = []
last_two (String.◌∷◌ a String.[]) = a ∷ []
last_two (String.◌∷◌ a (String.◌∷◌ b String.[])) = a ∷ b ∷ []
last_two (String.◌∷◌ a (String.◌∷◌ b (String.◌∷◌ c s))) = last_two (String.◌∷◌ b (String.◌∷◌ c s))

-- `ord('a')` is taken off last, so that no difference falls below 0: codes are at least 0, and
-- `(97 * 26 + 97) * 3` is 7857.
unfoldable pub port_of : List Char → Result ℕ
port_of (a ∷ b ∷ []) = ok (((code a * 26 + code b) * 3 + 40000) - (b'a' * 26 + b'a') * 3)
port_of other = raised index_error

unfoldable pub proxy_port_base : String → Result ℕ
proxy_port_base user_name = port_of (last_two user_name)
