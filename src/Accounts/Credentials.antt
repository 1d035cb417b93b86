-- ===== src/Accounts/Credentials.antt =====
-- The access keys, key pairs and passwords of a user (subaccounts.py).
pub mod Stored
use ec2_wrappers.Prelude.{
  Bool, String, Option, none, some, List, [], ◌∷◌, Exec, return, raise, gets, when,
}
use ec2_wrappers.Prelude.{
  ◌>>=◌, ◌>>◌, any, or_raise, operational_error, attribute_error, true, false, string_eq, ◌==◌,
}
use ec2_wrappers.Prelude.Dict.{lookup, insert, has_key}
use ec2_wrappers.Accounts.{
  Services, World, User, Action, Tables, AccessKeyRow, SshKeyRow, UserRow, Event,
  creating_access_key, creating_ssh_key, deleted_ssh_key, deleted_access_key, log, execute, call,
  ask, undefined, insert_or_ignore, delete_access_row, delete_ssh_row, ssh_keys_of,
  init_access_keys, full_key_name,
}

-- `str(row[0])`, where NULL is `None`
abbrev shown : Option String → String
shown none = "None"
shown (some s) = s

module _ (S : Services) where
  unfoldable pub get_password : User → Action S (Option String)
  get_password u = gets (λ w. elim (lookup u.user_name w.tables.users) [
    | none ↦ none
    | some row ↦ some (shown row.login_password)
  ])

  -- `iam_root` is the name of no variable here, and SQLite would not parse what follows:
  -- `UPDATE … WHERE … SET …`.
  unfoldable pub set_password : User → String → Action S (Unit {0})
  set_password u new_password = do undefined {A = Unit {0}} "iam_root"; raise operational_error

  unfoldable pub create_access_key : User → Action S User
  create_access_key u = do
    let store : String × String → Action S (Unit {0}) = λ response. execute S (λ t. record t {
      access_keys =
          insert_or_ignore response.0
            (record { user_name = u.user_name; secret_access_key = response.1 }) t.access_keys;
    })
    response ← call (S.create_access_key u.user_name)
    log S (creating_access_key u.user_name response.0)
    store response
    init_access_keys S u

  unfoldable pub get_ssh_keys : User → Action S (List (String × SshKeyRow))
  get_ssh_keys u = gets (λ w. ssh_keys_of u.user_name w.tables.ssh_keys)

  unfoldable pub create_ssh_key : User → String → Action S (Unit {0})
  create_ssh_key u key_name = do
    let full_name = full_key_name u.user_name key_name
    keypair ← call (S.create_key_pair full_name)
    log S (creating_ssh_key full_name u.user_name)
    execute S (λ t. record t {
      ssh_keys =
          insert full_name
            (record { user_name = u.user_name; private_key = keypair.0; fingerprint = keypair.1 })
            t.ssh_keys;
    })

  -- `ec2.get_key_pair(key_name).delete` names the method and does not call it.
  unfoldable pub remove_ssh_key : User → String → Action S (Unit {0})
  remove_ssh_key u key_name = do
    found ← ask (S.get_key_pair key_name)
    or_raise found attribute_error
    log S (deleted_ssh_key key_name)
    execute S (λ t. record t { ssh_keys = delete_ssh_row key_name u.user_name t.ssh_keys })

  unfoldable pub delete_ssh_key : User → String → Action S (Unit {0})
  delete_ssh_key u key_name = do
    own ← get_ssh_keys u
    when (has_key key_name own) (remove_ssh_key u key_name)

  -- `self.init_iam` and `self.init_access_keys` name methods and do not call them: the keys are those
  -- that the object has read.
  unfoldable pub delete_access_key : User → String → Action S (Unit {0})
  delete_access_key u access_key = when (any (λ x. x.0 == access_key) u.access_keys) (do
    call (S.delete_access_key access_key u.user_name)
    log S (deleted_access_key access_key)
    execute S
        (λ t. record t { access_keys = delete_access_row access_key u.user_name t.access_keys }))
