-- ===== src/Usage/Tests.antt =====
-- Runs of record_usage.py on a small database, and its theorems there.
use ec2_wrappers.Prelude.{◌≡◌, ◌≢◌, refl, String, ℕ, Option, none, some, List}
use ec2_wrappers.Prelude.{[], ◌∷◌, ok, string_eq, char_eq, nat_eq}
use ec2_wrappers.Prelude.{◌==◌, ne_of_==, if◌then◌else◌}
use ec2_wrappers.Prelude.Dict.{lookup}
use ec2_wrappers.Prelude.Text.{split, starts_with, join}
use ec2_wrappers.Ec2.{Instance, Reservation, SpotRequest}
use ec2_wrappers.Usage.{
  Tables, InstanceRow, durable, closed, end_time_of, user_from_key, update_instances,
  update_spot_requests, open_stop,
}
use ec2_wrappers.Usage.Cron.{usage_cron, usage_cron_lem}
use ec2_wrappers.Prelude.{raised, operational_error}
use ec2_wrappers.Usage.Sightings.{refusal}
use ec2_wrappers.Usage.History.{
  IsValid, replay, failure, ended, update_instances-replay, update_instances-end_time,
}
use ec2_wrappers.Usage.Resumed.{IsLive, update_instances_resumed}
use ec2_wrappers.Usage.Spot.{last_open, kept, update_spot_requests_lem}

abbrev seconds : String → Option ℕ
seconds s =
    if s == "2011-02-01T10:00:00"
    then some 36000
    else if s == "2011-02-01T12:00:00"
    then some 43200
    else none

abbrev noon : String
noon = "2011-02-01T12:00:00"

abbrev sighted : String → String → Instance
sighted id state = record {
  id = id;
  key_name = some "cs61c-ab-default";
  instance_type = "m1.small";
  launch_time = "2011-02-01T10:00:00";
  state = state;
  spot_instance_request_id = none;
  dns_name = "";
  private_dns_name = "";
}

abbrev answer : List Instance → List Reservation
answer is = record { groups = []; instances = is } ∷ []

abbrev empty : Tables
empty = record { instances = []; instance_stopped = []; pending_spot_requests = [] }

-- One instance was seen stopped before.
abbrev after_stop : Tables
after_stop = record empty {
  instance_stopped = record { instance_id = "i-1"; stopped_time = "t"; running_time = none } ∷ [];
}

abbrev row : Option ℕ → InstanceRow
row end = record {
  instance_type = "m1.small";
  start_time = some 36000;
  end_time = end;
  last_seen = some 43200;
  is_spot = 0;
  username = "cs61c-ab";
}

abbrev ended_table : Tables
ended_table = record empty { instances = ("i-1", row (some 43200)) ∷ [] }

key_of_class : user_from_key "cs61c-ab-default" ≡ "cs61c-ab"
unfolding user_from_key split starts_with join char_eq
key_of_class = refl

two_sightings :
    durable
      (update_instances seconds noon
        (answer (sighted "i-1" "running" ∷ sighted "i-2" "terminated" ∷ []))
        (closed empty)).1
    ≡ record empty { instances = ("i-1", row none) ∷ ("i-2", row (some 43200)) ∷ [] }
unfolding update_instances user_from_key split starts_with join char_eq string_eq
two_sightings = refl

update_instances-replay_example :
    let (r, db) =
      update_instances seconds noon (answer (sighted "i-1" "running" ∷ [])) (closed after_stop) in
    (r ≡ ended (failure seconds noon (sighted "i-1" "running" ∷ []) after_stop))
    × (durable db ≡ replay seconds noon (sighted "i-1" "running" ∷ []) after_stop)
update_instances-replay_example =
    update_instances-replay seconds noon (answer (sighted "i-1" "running" ∷ [])) after_stop

after_stop-IsValid : IsValid after_stop
after_stop-IsValid = record { nodup = tt; nodup_stops = (refl, tt); all_open = (refl, tt) }

update_instances-end_time_example :
    let db =
      (update_instances seconds noon
        (answer (sighted "i-1" "terminated" ∷ []))
        (closed ended_table)).1 in
    end_time_of (lookup "i-1" (durable db).instances) ≡ some 43200
unfolding string_eq
update_instances-end_time_example =
    update_instances-end_time seconds noon "i-1" 43200 (answer (sighted "i-1" "terminated" ∷ []))
      ended_table ((λ _. refl), tt) refl

running-IsLive : IsLive (sighted "i-1" "running")
unfolding string_eq
running-IsLive = record {
  not_terminated = ne_of_== "running" "terminated" refl;
  not_stopped = ne_of_== "running" "stopped" refl;
}

update_instances_resumed_example :
    let (r, db) =
      update_instances seconds noon
        (answer (sighted "i-2" "running" ∷ sighted "i-1" "running" ∷ sighted "i-3" "running" ∷ []))
        (closed after_stop) in
    (r ≢ ok tt) × (durable db ≡ replay seconds noon (sighted "i-2" "running" ∷ []) after_stop)
unfolding string_eq
update_instances_resumed_example =
    update_instances_resumed seconds noon "cs61c-ab-default" (sighted "i-1" "running") refl
      running-IsLive
      (answer (sighted "i-2" "running" ∷ sighted "i-1" "running" ∷ sighted "i-3" "running" ∷ []))
      (sighted "i-2" "running" ∷ []) (sighted "i-3" "running" ∷ []) after_stop after_stop-IsValid
      refl refl

abbrev request : String → String → SpotRequest
request id state = record {
  id = id;
  state = state;
  create_time = "2011-02-01T10:00:00";
  key_name = some "cs61c-ab-default";
  instance_type = "c1.medium";
  groups = [];
}

update_spot_requests_lem_example :
    let db =
      (update_spot_requests seconds
        (some "cs61c-ab")
        (request "s-1" "open" ∷ request "s-2" "active" ∷ [])
        (closed empty)) in
    (db.0 ≡ ok tt)
    × ((durable db.1).instances ≡ [])
    × ((durable db.1).instance_stopped ≡ [])
    × (lookup "s-1" (durable db.1).pending_spot_requests
        ≡ last_open seconds "s-1"
            (request "s-1" "open" ∷ request "s-2" "active" ∷ [])
            (kept (some "cs61c-ab") none))
update_spot_requests_lem_example =
    update_spot_requests_lem seconds (some "cs61c-ab")
      (request "s-1" "open" ∷ request "s-2" "active" ∷ []) empty "s-1" tt

-- The instance that runs again ends the run, and the spot requests are not updated.
usage_cron_lem_example :
    let (r, db) =
      usage_cron seconds noon
        (answer (sighted "i-1" "running" ∷ []))
        (request "s-1" "open" ∷ [])
        (closed after_stop) in
    (r ≡ raised operational_error)
    × ((durable db).instances ≡ after_stop.instances)
    × ((durable db).instance_stopped ≡ after_stop.instance_stopped)
    × (lookup "s-1" (durable db).pending_spot_requests ≡ none)
unfolding failure replay refusal open_stop string_eq
usage_cron_lem_example =
    usage_cron_lem seconds noon (answer (sighted "i-1" "running" ∷ [])) (request "s-1" "open" ∷ [])
      after_stop "s-1" tt
