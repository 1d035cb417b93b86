-- ===== src/Util.antt =====
-- hadoop/cloud/util.py, function by function. What `urllib2` and `ConfigParser` answer comes in as
-- arguments.
pub mod Words
pub mod Quoting
pub mod Merging
pub mod Retries
mod Tests
use ec2_wrappers.Prelude.{ℕ, zero, suc, ◌+◌, Bool, true, false, String, ◌<>◌}
use ec2_wrappers.Prelude.{Option, none, some, List, [], ◌∷◌, Result, ok, raised}
use ec2_wrappers.Prelude.{value_error, url_error, ltb, string_eq, if◌then◌else◌, Exn}
use ec2_wrappers.Prelude.Text.{replace, has_char, split, drop_last}
use ec2_wrappers.Prelude.Dict.{Dict, insert}

pub bash_quote : Option String → String
unfolding replace
bash_quote none = ""
bash_quote (some text) = "'" <> (replace "'" "'\\''" text <> "'")

-- `(var, value) = env.split("=")` raises unless there are exactly two pieces.
assignment : List String → Result String
unfolding bash_quote
assignment (var ∷ value ∷ []) = ok (var <> ("=" <> bash_quote (some value)))
assignment other = raised value_error

pub bash_quote_env : String → Result String
unfolding assignment has_char split
bash_quote_env env = if has_char "=" env then assignment (split "=" env) else ok env

-- The first loop of `build_env_string`, which adds to what it is given.
env_loop : List String → String → Result String
unfolding bash_quote_env
env_loop [] env = ok env
env_loop (s ∷ rest) env = elim (bash_quote_env s) [
  | ok q ↦ env_loop rest (env <> (q <> " "))
  | raised e ↦ raised e
]

-- The second loop.
pair_loop : Dict String (Option String) → String → String
unfolding bash_quote
pair_loop [] env = env
pair_loop ((key, val) ∷ rest) env =
    pair_loop rest (env <> (key <> ("=" <> (bash_quote val <> " "))))

unfoldable pub build_env_string : List String → Dict String (Option String) → Result String
unfolding env_loop pair_loop drop_last
build_env_string env_strings pairs = elim (env_loop env_strings "") [
  | ok env ↦ ok (drop_last (pair_loop pairs env))
  | raised e ↦ raised e
]

-- What an option may hold: a text, a list of texts (a value of several lines, or an option with
-- `action="append"`), a flag, or the default port number.
pub data Value : Type 0 where
  text : String → Value
  lines : List String → Value
  flag : Bool → Value
  port : ℕ → Value

pub config_value : String → Value
unfolding has_char split
config_value value = if has_char "\n" value then lines (split "\n" value) else text value

config_loop : Dict String String → Dict String Value → Dict String Value
unfolding config_value
config_loop [] res = res
config_loop ((key, value) ∷ rest) res = config_loop rest (insert key (config_value value) res)

option_loop : Dict String (Option Value) → Dict String Value → Dict String Value
option_loop [] res = res
option_loop ((key, none) ∷ rest) res = option_loop rest res
option_loop ((key, some v) ∷ rest) res = option_loop rest (insert key v res)

-- `section` is what `config.items(section_name)` gives, and `none` is a `NoSectionError`.
unfoldable pub merge_config_with_options :
    Option (Dict String String) → Dict String (Option Value) → Dict String Value
unfolding config_loop option_loop
merge_config_with_options none options = option_loop options []
merge_config_with_options (some section) options = option_loop options (config_loop section [])

-- `urllib2.urlopen(url).read()` under a socket timeout: the page that the n-th attempt gives, or
-- What `urllib2.urlopen(url).read()` gives with a timeout, in the n-th attempt.
abbrev pub Fetch : Type 0
Fetch = ℕ → ℕ → Result String

-- `except urllib2.URLError`; a socket.timeout of `read`, say, is none (an `io_error`).
pub is_url_error : Exn → Bool
is_url_error url_error = true
is_url_error other = false

-- The `while True` loop, on fuel. `none` means that the fuel ran out.
url_get_loop : ℕ → (ℕ → Result String) → ℕ → ℕ → Option (Result String)
unfolding is_url_error
url_get_loop zero fetch attempts retries = none
url_get_loop (suc fuel) fetch attempts retries =
    let again = url_get_loop fuel fetch (attempts + 1) retries in
    elim (fetch attempts) [
      | ok page ↦ some (ok page)
      | raised e ↦
          if is_url_error e
          then if ltb retries (attempts + 1) then some (raised e) else again
          else some (raised e)
    ]

pub url_get : ℕ → Fetch → ℕ → ℕ → Option (Result String)
unfolding url_get_loop
url_get fuel fetch timeout retries = url_get_loop fuel (fetch timeout) 0 retries

unfoldable pub xstr : Option String → String
xstr none = ""
xstr (some s) = s
