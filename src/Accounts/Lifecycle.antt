-- ===== src/Accounts/Lifecycle.antt =====
-- The making and the deletion of users (subaccounts.py).
pub mod Outcome
use ec2_wrappers.Prelude.{
  ℕ, Bool, String, ◌<>◌, Option, none, some, List, [], ◌∷◌, Exec, return, gets,
}
use ec2_wrappers.Prelude.{
  ◌>>=◌, ◌>>◌, for_each, raise, attribute_error, lift, true, false, string_eq,
}
use ec2_wrappers.Prelude.{
  exception, role_syntax, timeout, keyboard_interrupt, system_exit, Exn, Result, ok, raised,
}
use ec2_wrappers.Prelude.Text.{join}
use ec2_wrappers.Prelude.Dict.{insert, erase}
use ec2_wrappers.Accounts.{
  Services, World, User, Action, Tables, UserRow, Event, creating_user, log, execute, call, ask,
  undefined, make,
}

-- Whether `except StandardError` catches an exception.
abbrev is_standard : Exn → Bool
is_standard (exception message) = false
is_standard (role_syntax role) = false
is_standard timeout = false
is_standard keyboard_interrupt = false
is_standard (system_exit status) = false
is_standard other = true

-- `try: body` with `except StandardError: pass`
abbrev attempt : {S : Type 0} → Exec S (Unit {0}) → Exec S (Unit {0})
attempt body s =
    let (r, t) = body s in
    elim r [
      | ok a ↦ (ok tt, t)
      | raised e ↦ (elim (is_standard e) [ true ↦ ok tt | false ↦ raised e ], t)
    ]

unfoldable pub get_user_policy : String → String
get_user_policy user_name = join "" (
    "\n" ∷ "        {\n" ∷ "            \"Statement\":[{\n"
    ∷ "                \"Effect\":\"Allow\",\n" ∷ "                \"Action\":[\n"
    ∷ "                    \"s3:*\"\n" ∷ "                ],\n"
    ∷ "                \"Resource\": \"arn:aws:s3:::cs61c/" ∷ user_name ∷ "*\"\n"
    ∷ "            },\n" ∷ "            {\n" ∷ "                \"Effect\":\"Allow\",\n"
    ∷ "                \"Action\":[\n" ∷ "                    \"iam:*AccessKey*\",\n"
    ∷ "                    \"iam:*SigningCert*\",\n" ∷ "                    \"iam:*LoginProf*\"\n"
    ∷ "                ],\n" ∷ "                \"Resource\": \"arn:aws:iam::*:user/*" ∷ user_name
    ∷ "*\"\n" ∷ "            }]\n" ∷ "        }\n" ∷ "    " ∷ [])

module _ (S : Services) where
  -- The body of the `try` of `iam_delete_user`; `auditlog` is the name of nothing.
  abbrev pub iam_delete_body : String → Action S (Unit {0})
  iam_delete_body user_name = do
    undefined {A = Unit {0}} "auditlog"
    ask (S.get_user user_name)
    policies ← ask (S.user_policies user_name)
    for_each policies (λ policy. call (S.delete_user_policy user_name policy))
    groups ← ask (S.user_groups user_name)
    for_each groups (λ group. call (S.remove_user_from_group group user_name))
    certs ← ask (S.signing_certs user_name)
    for_each certs (λ cert. call (S.delete_signing_cert cert user_name))
    access_keys ← ask (S.user_access_keys user_name)
    for_each access_keys (λ key. call (S.delete_access_key key user_name))

  unfoldable pub iam_delete_user : String → Action S (Unit {0})
  iam_delete_user user_name = attempt (iam_delete_body user_name)

  -- `for i in xrange(8): s.append(…)`, and a text has no method `append`.
  unfoldable pub random_password : Action S String
  random_password = do
    for_each (0 ∷ 1 ∷ 2 ∷ 3 ∷ 4 ∷ 5 ∷ 6 ∷ 7 ∷ []) (λ (i : ℕ). raise attribute_error)
    return ""

  unfoldable pub delete_user : String → Action S (Unit {0})
  delete_user user_name = do
    iam_delete_user user_name
    execute S (λ t. record t { users = erase user_name t.users })

  -- `normalise` is `simplejson.dumps(simplejson.loads(…))`; `now` and `account` are the time and
  -- `real_username()`.
  unfoldable pub make_user : (String → Result String) → String → String → String → Action S User
  make_user normalise now account user_name = do
    log S (creating_user user_name)
    iam_delete_user user_name
    call (S.create_user user_name)
    call (S.add_user_to_group "students" user_name)
    policy ← lift (normalise (get_user_policy user_name))
    call (S.put_user_policy user_name policy)
    password ← random_password
    call (S.create_login_profile user_name password)
    execute S (λ t. record t {
      users =
          insert user_name
            (record { create_time = now; create_account = account; login_password = some password })
            t.users;
    })
    make S user_name
