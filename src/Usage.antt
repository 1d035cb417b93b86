-- ===== src/Usage.antt =====
-- record_usage.py: the usage database and the two updates that fill it from EC2. A statement of SQL
-- is the change of the tables that it asks for; `julianday` of SQLite is a parameter, which counts
-- in whole seconds. What EC2 answers is an argument.
pub mod Keys
pub mod Sightings
pub mod History
pub mod Resumed
pub mod Spot
pub mod Cron
pub mod Report
mod Tests
use ec2_wrappers.Prelude.{
  when, ℕ, Bool, true, false, String, Option, none, some, List, [], ◌∷◌, Result,
}
use ec2_wrappers.Prelude.{
  raised, ok, Exec, return, raise, raise_if, gets, lift, modify, for_each, ◌++◌,
}
use ec2_wrappers.Prelude.{attribute_error, operational_error, integrity_error, ◌>>=◌, ◌>>◌, any}
use ec2_wrappers.Prelude.{not, ◌&&◌, select, string_eq, ◌==◌, if◌then◌else◌}
use ec2_wrappers.Prelude.Text.{starts_with, split, join}
use ec2_wrappers.Prelude.Dict.{Dict, lookup, insert}
use ec2_wrappers.Ec2.{Instance, Reservation, SpotRequest, all_of}

-- A row of `instances`, without its primary key.
pub record InstanceRow : Type 0 where
  pub instance_type : String
  pub start_time : Option ℕ
  pub end_time : Option ℕ
  pub last_seen : Option ℕ
  pub is_spot : ℕ
  pub username : String

-- A row of `instance_stopped`, whose primary key is the first two columns.
pub record StoppedRow : Type 0 where
  pub instance_id : String
  pub stopped_time : String
  pub running_time : Option String

-- A row of `pending_spot_requests`, without its primary key.
pub record SpotRow : Type 0 where
  pub instance_type : String
  pub request_time : Option ℕ
  pub username : String

pub record Tables : Type 0 where
  pub instances : Dict String InstanceRow
  pub instance_stopped : List StoppedRow
  pub pending_spot_requests : Dict String SpotRow

-- The connection: what its statements see, and what stood in the file when the open transaction
-- began.
pub record Db : Type 0 where
  pub tables : Tables
  pub journal : Option Tables

-- A connection with no open transaction.
abbrev pub closed : Tables → Db
closed t = record { tables = t; journal = none }

-- What is left in the file when the process ends: an open transaction is rolled back.
abbrev pub durable : Db → Tables
durable db = elim db.journal [ none ↦ db.tables | some before ↦ before ]

-- BEGIN IMMEDIATE TRANSACTION
begin : Exec Db (Unit {0})
begin db = elim db.journal [
  | none ↦ (ok tt, record db { journal = some db.tables })
  | some before ↦ (raised operational_error, db)
]

-- COMMIT
commit : Exec Db (Unit {0})
commit db = elim db.journal [
  | none ↦ (raised operational_error, db)
  | some before ↦ (ok tt, record db { journal = none })
]

-- A statement that changes the tables.
abbrev execute : (Tables → Tables) → Exec Db (Unit {0})
execute f = modify (λ db. record db { tables = f db.tables })

-- The first two pieces of `key_name.split("-")`, or one.
first_two : List String → List String
first_two (a ∷ b ∷ rest) = a ∷ b ∷ []
first_two pieces = pieces

first_piece : List String → String
first_piece [] = ""
first_piece (a ∷ rest) = a

pub user_from_key : String → String
unfolding first_two first_piece split join starts_with
user_from_key key_name =
    if starts_with key_name "cs"
    then join "-" (first_two (split "-" key_name))
    else first_piece (split "-" key_name)

-- `user_from_key` of an instance's key; `None` has no method `startswith`.
user_of : Option String → Result String
unfolding user_from_key
user_of none = raised attribute_error
user_of (some key_name) = ok (user_from_key key_name)

-- `SELECT end_time FROM instances WHERE instance_id = ?`
abbrev pub end_time_of : Option InstanceRow → Option ℕ
end_time_of none = none
end_time_of (some row) = row.end_time

-- `SELECT stopped_time … WHERE instance_id = ? AND running_time IS NULL`, of which the loop keeps
-- the last row.
unfoldable pub open_stop : String → List StoppedRow → Option String
open_stop id [] = none
open_stop id (row ∷ rows) = elim (open_stop id rows) [
  | some later ↦ some later
  | none ↦ elim row.running_time [
    | some t ↦ none
    | none ↦ if row.instance_id == id then some row.stopped_time else none
  ]
]

abbrev pub is_stop_at : String → String → StoppedRow → Bool
is_stop_at id t row = (row.instance_id == id) && (row.stopped_time == t)

-- `INSERT INTO instance_stopped (instance_id, stopped_time) VALUES (?, ?)`
insert_stopped : String → String → Exec Db (Unit {0})
insert_stopped id now = do
  taken ← gets (λ db. any (is_stop_at id now) db.tables.instance_stopped)
  raise_if taken integrity_error
  execute (λ t. record t {
    instance_stopped =
        t.instance_stopped
        ++ (record { instance_id = id; stopped_time = now; running_time = none } ∷ []);
  })

abbrev is_none {ℓ} : {A : Type ℓ} → Option A → Bool
is_none none = true
is_none (some a) = false

-- `DELETE FROM pending_spot_requests WHERE username = ?`
delete_of : String → Dict String SpotRow → Dict String SpotRow
delete_of user [] = []
delete_of user ((id, row) ∷ rows) =
    let rest = delete_of user rows in if row.username == user then rest else (id, row) ∷ rest

-- An empty `username` is as good as none.
delete_pending : Option String → Dict String SpotRow → Dict String SpotRow
unfolding delete_of
delete_pending none rows = []
delete_pending (some user) rows = if user == "" then [] else delete_of user rows

module _ (julianday : String → Option ℕ) where
  -- The row that `INSERT OR REPLACE INTO instances` writes; a column that it leaves out is NULL.
  abbrev pub row_of : Instance → String → String → Option ℕ → InstanceRow
  row_of i user now end = record {
    instance_type = i.instance_type;
    start_time = julianday i.launch_time;
    end_time = end;
    last_seen = julianday now;
    is_spot = if is_none i.spot_instance_request_id then 0 else 1;
    username = user;
  }

  abbrev put_instance : String → InstanceRow → Exec Db (Unit {0})
  put_instance id row = execute (λ t. record t { instances = insert id row t.instances })

  -- The statements that one sighting leads to, between BEGIN and COMMIT. SQLite does not parse the
  -- one that should set `running_time`: `UPDATE … WHERE … SET …`.
  sighting : String → Instance → String → Exec Db (Unit {0})
  unfolding open_stop insert_stopped
  sighting now i user = do
    old_end_time ← gets (λ db. end_time_of (lookup i.id db.tables.instances))
    old_stop_time ← gets (λ db. open_stop i.id db.tables.instance_stopped)
    when (i.state == "terminated" && is_none old_end_time)
        (put_instance i.id (row_of i user now (julianday now)))
    when
        (not (i.state == "stopped")
          && (not (i.state == "terminated") && not (is_none old_stop_time)))
        (raise operational_error)
    when (not (i.state == "terminated")) (put_instance i.id (row_of i user now none))
    when (i.state == "stopped") (insert_stopped i.id now)

  -- The body of the loops of `update_instances`.
  pub update_instance : String → Instance → Exec Db (Unit {0})
  unfolding begin commit user_of sighting
  update_instance now i = do begin; user ← lift (user_of i.key_name); sighting now i user; commit

  -- `now` is `datetime.datetime.utcnow().isoformat()`, read once.
  pub update_instances : String → List Reservation → Exec Db (Unit {0})
  unfolding update_instance
  update_instances now all_instances = for_each (all_of all_instances) (update_instance now)

  put_row : String → SpotRequest → Exec Db (Unit {0})
  put_row user r =
      if r.state == "open"
      then execute (λ t. record t {
        pending_spot_requests =
            insert r.id
              (record {
                instance_type = r.instance_type;
                request_time = julianday r.create_time;
                username = user;
              })
              t.pending_spot_requests;
      })
      else return tt

  -- The key is read of every request, open or not.
  put_request : SpotRequest → Exec Db (Unit {0})
  unfolding user_of put_row
  put_request r = do user ← lift (user_of r.key_name); put_row user r

  pub update_spot_requests : Option String → List SpotRequest → Exec Db (Unit {0})
  unfolding begin commit put_request delete_pending
  update_spot_requests username requests = do
    begin
    execute
        (λ t. record t { pending_spot_requests = delete_pending username t.pending_spot_requests })
    for_each requests put_request
    commit
