-- ===== src/Util/Tests.antt =====
-- Runs of hadoop/cloud/util.py, and its theorems at concrete data.
use ec2_wrappers.Prelude.{url_error, ◌≡◌, refl, String, Option, none, some, [], ◌∷◌, ok}
use ec2_wrappers.Prelude.{
  raised, value_error, arith, char_eq, string_eq, ◌==◌, nat_eq, if◌then◌else◌,
}
use ec2_wrappers.Prelude.Dict.{Dict}
use ec2_wrappers.Prelude.Text.{has_char, all_chars, replace, split, drop_last}
use ec2_wrappers.Util.{
  bash_quote, bash_quote_env, build_env_string, Value, text, Fetch, url_get, xstr, is_url_error,
}
use ec2_wrappers.Util.Words.{words, plain, Reads-bash_quote, is_plain}
use ec2_wrappers.Util.Quoting.{words-build_env_string}
use ec2_wrappers.Util.Retries.{first_page, url_get-first_page}

quoted : bash_quote (some "it's") ≡ "'it'\\''s'"
unfolding bash_quote replace char_eq
quoted = refl

-- A value that holds an equals sign is refused.
two_equals : bash_quote_env "A=b=c" ≡ raised value_error
unfolding bash_quote_env has_char split char_eq
two_equals = refl

env_string :
    build_env_string ("A=b c" ∷ []) (("ROLES", some "nn,jt") ∷ ("EBS", none) ∷ [])
    ≡ ok "A='b c' ROLES='nn,jt' EBS="
unfolding build_env_string bash_quote_env bash_quote has_char split drop_last replace char_eq
env_string = refl

words-build_env_string_example :
    (env : String) × (build_env_string ("A=b c" ∷ []) (("ROLES", some "it's") ∷ ("EBS", none) ∷ [])
      ≡ ok env)
    × (words plain env ≡ some ("A=b c" ∷ "ROLES=it's" ∷ "EBS=" ∷ []))
unfolding all_chars is_plain has_char char_eq xstr
words-build_env_string_example =
    words-build_env_string (("A", "b c") ∷ []) ("ROLES", some "it's") (("EBS", none) ∷ [])
      ((refl, refl, refl), tt) (refl, (refl, tt))

Reads-bash_quote_example : words plain "'it'\\''s' x" ≡ some ("it's" ∷ "x" ∷ [])
unfolding bash_quote replace words xstr is_plain has_char char_eq
Reads-bash_quote_example = Reads-bash_quote (some "it's") " x"

abbrev options : Dict String (Option Value)
options = ("key_name", some (text "mine")) ∷ ("env", none) ∷ []

abbrev third_time : Fetch
third_time timeout n = if n == 2 then ok "page" else raised url_error

url_get-first_page_example : url_get 5 third_time 10 2 ≡ some (ok "page")
unfolding first_page nat_eq is_url_error
url_get-first_page_example = url_get-first_page 5 third_time 10 2 (omega arith)
