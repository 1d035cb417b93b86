-- ===== src/Accounts/Runner.antt =====
-- ec2_runner.py: the program that runs with the rights of the course and launches for its caller.
pub mod Guard
use ec2_wrappers.Prelude.{
  Bool, true, false, String, ◌<>◌, Option, none, some, List, [], ◌∷◌, map, Exec,
}
use ec2_wrappers.Prelude.{return, raise_if, ◌>>=◌, ◌>>◌, is_empty, not, system_exit, exception}
use ec2_wrappers.Prelude.{lift, Result, ok, raised, type_error, if◌then◌else◌}
use ec2_wrappers.Prelude.Text.{starts_with}
use ec2_wrappers.Ec2.{Reservation}
use ec2_wrappers.Accounts.{
  Services, User, Action, Request, number, digits, Launched, reservation, spot_requests, make,
  run_instances, field,
}

-- What optparse makes of the command line; `none` is None, or the default of the option.
pub record Options : Type 0 where
  pub image_id : Option String
  pub count : Option String
  pub key_name : Option String
  pub availability_zone : Option String
  pub placement_group : Option String
  pub instance_type : Option String
  pub user_data : Option String
  pub use_spot : Bool
  pub security_groups : List String
  pub stdin_user_data : Bool
  pub stdin_json : Bool
  -- what is left of the words
  pub args : List String

-- The request from the command line or from standard input, with the `placement` of the latter.
pub record Submission : Type 0 where
  pub request : Request
  pub placement : Option (Option String)

-- Standard input: what it holds as a text and as JSON.
pub record Input : Type 0 where
  pub json : Result Submission
  pub text : String
  pub b64decode : String → Result String

-- The request of the options in KEYS.
unfoldable pub request_of_options : String → Options → Submission
request_of_options user o = record {
  request = record {
    image_id = some o.image_id;
    count = some (elim o.count [ none ↦ number 1 | some s ↦ digits s ]);
    key_name = elim o.key_name [ none ↦ some (user <> "-default") | some key ↦ some key ];
    security_groups = some o.security_groups;
    instance_type = o.instance_type;
    use_spot = some o.use_spot;
    user_data = some o.user_data;
    availability_zone = some o.availability_zone;
  };
  placement = none;
}

-- `base64.b64decode` of the user data in the JSON, if there are any; None is no text.
unfoldable pub decoded :
    (String → Result String) → Option (Option String) → Result (Option (Option String))
decoded b64decode none = ok none
decoded b64decode (some none) = raised type_error
decoded b64decode (some (some text)) = elim (b64decode text) [
  | ok content ↦ ok (some (some content))
  | raised e ↦ raised e
]

-- The request of the JSON on standard input.
unfoldable pub request_of_json : Input → Result Submission
request_of_json input = elim input.json [
  | raised e ↦ raised e
  | ok s ↦ elim (decoded input.b64decode s.request.user_data) [
    | raised e ↦ raised e
    | ok content ↦ ok (record s { request = record s.request { user_data = content } })
  ]
]

unfoldable pub request_of : String → Options → Input → Result Submission
request_of user o input = elim o.stdin_json [
  | true ↦ request_of_json input
  | false ↦ ok (request_of_options user o)
]

-- `sys.stdin.read()` for `--stdin-user-data`, which finds nothing behind the JSON.
unfoldable pub stdin_of : Options → Input → Option String
stdin_of o input =
    if o.stdin_user_data then some (if o.stdin_json then "" else input.text) else none

-- The key must begin with the user name; `str(None)` is `None`.
unfoldable pub has_own_key : String → Option String → Bool
has_own_key user none = false
has_own_key user (some key) = starts_with key user

-- `placement` stands in for a missing `availability_zone`.
unfoldable pub zone_of : Option (Option String) → Option (Option String) → Option (Option String)
zone_of (some zone) placement = some zone
zone_of none placement = placement

-- With `--stdin-user-data` the user data are what standard input holds.
unfoldable pub user_data_of : Option String → Option (Option String) → Option (Option String)
user_data_of (some text) user_data = some (some text)
user_data_of none user_data = user_data

unfoldable pub completed : Submission → Option String → Request
completed s stdin = record s.request {
  availability_zone = zone_of s.request.availability_zone s.placement;
  user_data = user_data_of stdin s.request.user_data;
}

unfoldable pub ids_launched : Launched → List String
ids_launched (reservation res) = map (λ i. i.id) res.instances
ids_launched (spot_requests requests) = map (λ r. r.id) requests

module _ (S : Services) where
  -- Past the reading of the request; `parser.error` exits with status 2.
  unfoldable pub submit : String → User → Submission → Option String → Action S (List String)
  submit real_username user s stdin = do
    raise_if (not (has_own_key real_username s.request.key_name)) (system_exit 2)
    raise_if (is_empty user.access_keys) (exception ("No access keys for " <> real_username))
    launched ← run_instances S user (completed s stdin)
    return (ids_launched launched)

  -- `parsed` is the answer of optparse, which exits by itself where it is not content.
  unfoldable pub main : String → Result Options → Input → Action S (List String)
  main real_username parsed input = do
    user ← make S real_username
    o ← lift parsed
    raise_if (not (is_empty o.args)) (system_exit 2)
    s ← lift (request_of real_username o input)
    submit real_username user s (stdin_of o input)
