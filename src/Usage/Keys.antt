-- ===== src/Usage/Keys.antt =====
-- Which account `user_from_key` (record_usage.py) bills for an instance.
use ec2_wrappers.Prelude.{◌≡◌, true, false, String, ◌<>◌, char_eq}
use ec2_wrappers.Prelude.Text.{
  has_char, join, starts_with, split-append, split-none, starts_with-append, <>_assoc,
}
use ec2_wrappers.Usage.{user_from_key, first_two}

-- A key named after a class account, `<course>-<login>-<rest>`, is billed to that account. The
-- course begins with "cs", and neither it nor the login holds a dash.
pub user_from_key_class :
    (course login rest : String)
    → starts_with course "cs" ≡ true
    → has_char "-" course ≡ false
    → has_char "-" login ≡ false
    → user_from_key ((course <> ("-" <> login)) <> ("-" <> rest)) ≡ course <> ("-" <> login)
unfolding user_from_key first_two join
user_from_key_class course login rest h hc hl = rw (
  <>_assoc course _ _,
  starts_with-append course ("-" <> (login <> ("-" <> rest))) "cs" h,
  split-append "-" course (login <> ("-" <> rest)) hc,
  split-append "-" login rest hl,
)

-- A key named `<course>-<rest>` after a course account itself, which begins with "cs" and holds no
-- dash, is billed to the first two pieces, which is another name than the account's.
pub user_from_key_course :
    (course rest : String)
    → starts_with course "cs" ≡ true
    → has_char "-" course ≡ false
    → has_char "-" rest ≡ false
    → user_from_key (course <> ("-" <> rest)) ≡ course <> ("-" <> rest)
unfolding user_from_key first_two join
user_from_key_course course rest h hc hr = rw (
  starts_with-append course ("-" <> rest) "cs" h,
  split-append "-" course rest hc,
  split-none "-" rest hr,
)
