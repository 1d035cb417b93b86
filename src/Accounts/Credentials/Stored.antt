-- ===== src/Accounts/Credentials/Stored.antt =====
-- What the operations on credentials (subaccounts.py) leave in the user database and in the cloud.
use ec2_wrappers.Prelude.{String, none, some, List, [], ◌∷◌, ◌++◌, ok}
use ec2_wrappers.Prelude.{
  ◌≡◌, ◌≢◌, refl, ap, ◌∙◌, arith, true, false, string_eq, ◌==◌, if◌then◌else◌,
}
use ec2_wrappers.Prelude.{==_of_eq, is_empty, select, not, Bool-cases, Result-cases, inl, inr, any}
use ec2_wrappers.Prelude.Dict.{Dict, lookup, insert, has_key, lookup-insert}
use ec2_wrappers.Accounts.{
  Services, World, User, AccessKeyRow, SshKeyRow, insert_or_ignore, delete_access_row,
  delete_ssh_row, ssh_keys_of, access_keys_of, init_access_keys, full_key_name,
}
use ec2_wrappers.Accounts.Credentials.{
  create_access_key, create_ssh_key, delete_ssh_key, remove_ssh_key, get_ssh_keys,
  delete_access_key,
}

access_keys_of-insert :
    (user key : String) (row : AccessKeyRow) (rows : Dict String AccessKeyRow)
    → lookup key rows ≡ none
    → access_keys_of user (insert key row rows)
      ≡ access_keys_of user rows
        ++ (if row.user_name == user then (key, row.secret_access_key) ∷ [] else [])
unfolding access_keys_of
access_keys_of-insert user key row [] h = ground arith
access_keys_of-insert user key row ((k, r) ∷ rows) h =
    ground (arith, access_keys_of-insert user key row rows)

insert_or_ignore_lem :
    (key : String) (row : AccessKeyRow) (rows : Dict String AccessKeyRow)
    → lookup key rows ≡ none
    → insert_or_ignore key row rows ≡ insert key row rows
unfolding insert_or_ignore
insert_or_ignore_lem key row rows h = ground arith

access_keys_of-insert_own :
    (user key secret : String) (rows : Dict String AccessKeyRow)
    → lookup key rows ≡ none
    → access_keys_of user
        (insert_or_ignore key (record { user_name = user; secret_access_key = secret }) rows)
      ≡ access_keys_of user rows ++ ((key, secret) ∷ [])
access_keys_of-insert_own user key secret rows h =
    let row : AccessKeyRow = record { user_name = user; secret_access_key = secret } in
    ap (access_keys_of user) (insert_or_ignore_lem key row rows h)
    ∙ access_keys_of-insert user key row rows h
    ∙ rw (==_of_eq user user refl)

is_empty-append : {A : Type 0} (xs : List A) (x : A) → is_empty (xs ++ (x ∷ [])) ≡ false
is_empty-append [] x = refl
is_empty-append (y ∷ xs) x = refl

-- An access key that IAM makes, under an id that is not on record, becomes the last key of the user,
-- who has connections from then on.
pub create_access_key_lem :
    (S : Services) (u : User) (w : World S) (id secret : String)
    → (S.create_access_key u.user_name w.cloud).0 ≡ ok (id, secret)
    → lookup id w.tables.access_keys ≡ none
    → (create_access_key S u w).0
      ≡ ok (record {
        user_name = u.user_name;
        access_keys = access_keys_of u.user_name w.tables.access_keys ++ ((id, secret) ∷ []);
        connected = true;
      })
unfolding create_access_key init_access_keys
create_access_key_lem S u w id secret h fresh =
    let own = access_keys_of u.user_name w.tables.access_keys in
    ground (
      arith,
      access_keys_of-insert_own u.user_name id secret w.tables.access_keys fresh,
      is_empty-append own (id, secret),
    )

-- A key pair that EC2 makes is stored under its full name, over what was stored under it, and all
-- other key pairs stay.
pub lookup-create_ssh_key :
    (S : Services) (u : User) (key : String) (w : World S) (private print : String) (k : String)
    → (S.create_key_pair (full_key_name u.user_name key) w.cloud).0 ≡ ok (private, print)
    → lookup k (create_ssh_key S u key w).1.tables.ssh_keys ≡ (
        if k == full_key_name u.user_name key
        then some (record { user_name = u.user_name; private_key = private; fingerprint = print })
        else lookup k w.tables.ssh_keys)
unfolding create_ssh_key
lookup-create_ssh_key S u key w private print k h = ground (
  arith,
  lookup-insert k (full_key_name u.user_name key)
      (record { user_name = u.user_name; private_key = private; fingerprint = print })
      w.tables.ssh_keys,
)

ssh_keys_of-delete_ssh_row :
    (other key user : String) (rows : Dict String SshKeyRow)
    → other ≢ user
    → ssh_keys_of other (delete_ssh_row key user rows) ≡ ssh_keys_of other rows
unfolding ssh_keys_of delete_ssh_row
ssh_keys_of-delete_ssh_row other key user [] h = refl
ssh_keys_of-delete_ssh_row other key user ((k, row) ∷ rows) h =
    ground (arith, ssh_keys_of-delete_ssh_row other key user rows h)

has_key-delete_ssh_row :
    (key user : String) (rows : Dict String SshKeyRow)
    → has_key key (ssh_keys_of user (delete_ssh_row key user rows)) ≡ false
unfolding ssh_keys_of delete_ssh_row
has_key-delete_ssh_row key user [] = refl
has_key-delete_ssh_row key user ((k, row) ∷ rows) =
    ground (arith, has_key-delete_ssh_row key user rows)

-- However it ends, `delete_ssh_key` leaves the cloud as it was: the key pair stays valid in EC2. It
-- leaves the key pairs of all other users too.
pub delete_ssh_key_lem :
    (S : Services) (u : User) (key other : String) (w : World S)
    → other ≢ u.user_name
    → let after = (delete_ssh_key S u key w).1 in
      (after.cloud ≡ w.cloud)
      × (ssh_keys_of other after.tables.ssh_keys ≡ ssh_keys_of other w.tables.ssh_keys)
unfolding delete_ssh_key remove_ssh_key get_ssh_keys
delete_ssh_key_lem S u key other w h =
    elim (Bool-cases (has_key key (ssh_keys_of u.user_name w.tables.ssh_keys))) [
      | inr b ↦ ground arith
      | inl b ↦ elim (Result-cases (S.get_key_pair key w.cloud)) [
        | inr (e, r) ↦ ground arith
        | inl (none, r) ↦ ground arith
        | inl (some pair, r) ↦
            ground (arith, ssh_keys_of-delete_ssh_row other key u.user_name w.tables.ssh_keys h)
      ]
    ]

access_keys_of-delete_access_row :
    (other key user : String) (rows : Dict String AccessKeyRow)
    → other ≢ user
    → access_keys_of other (delete_access_row key user rows) ≡ access_keys_of other rows
unfolding access_keys_of delete_access_row
access_keys_of-delete_access_row other key user [] h = refl
access_keys_of-delete_access_row other key user ((k, row) ∷ rows) h =
    ground (arith, access_keys_of-delete_access_row other key user rows h)

select_keys :
    (key user : String) (rows : Dict String AccessKeyRow)
    → access_keys_of user (delete_access_row key user rows)
      ≡ select (λ x. not (x.0 == key)) (access_keys_of user rows)
unfolding access_keys_of delete_access_row
select_keys key user [] = refl
select_keys key user ((k, row) ∷ rows) = ground (arith, select_keys key user rows)

-- Where IAM deletes an access key that the user has, exactly that key leaves the keys of the user,
-- and all other users keep theirs.
pub delete_access_key_lem :
    (S : Services) (u : User) (key other : String) (w : World S)
    → any (λ x. x.0 == key) u.access_keys ≡ true
    → (S.delete_access_key key u.user_name w.cloud).0 ≡ ok tt
    → other ≢ u.user_name
    → let before = w.tables.access_keys in
      let after = (delete_access_key S u key w).1.tables.access_keys in
      (access_keys_of u.user_name after
        ≡ select (λ x. not (x.0 == key)) (access_keys_of u.user_name before))
      × (access_keys_of other after ≡ access_keys_of other before)
unfolding delete_access_key
delete_access_key_lem S u key other w h d n = ground (
  arith,
  select_keys key u.user_name w.tables.access_keys,
  access_keys_of-delete_access_row other key u.user_name w.tables.access_keys n,
)
