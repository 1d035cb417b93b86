-- ===== src/Usage/Sightings.antt =====
-- What one sighting of an instance does to the usage database, and what a whole update keeps.
use ec2_wrappers.Prelude.{◌≡◌, ◌≢◌, refl, true, false, String, ℕ, Option, none, some}
use ec2_wrappers.Prelude.{
  [], ◌∷◌, ◌++◌, Result, ok, raised, Exn, operational_error, integrity_error,
}
use ec2_wrappers.Prelude.{
  attribute_error, any, arith, inl, inr, Option-cases, string_eq, ◌==◌, ==_of_ne, ne_of_==,
  if◌then◌else◌,
}
use ec2_wrappers.Prelude.Dict.{lookup, insert}
use ec2_wrappers.Ec2.{Instance}
use ec2_wrappers.Usage.{
  Tables, Db, durable, closed, begin, commit, user_of, user_from_key, end_time_of, open_stop,
  is_stop_at, insert_stopped, row_of, sighting, update_instance, is_none,
}

-- Why a sighting cannot be recorded, if it cannot.
unfoldable pub refusal : String → Instance → Tables → Option Exn
refusal now i t = elim i.key_name [
  | none ↦ some attribute_error
  | some key ↦
      if i.state == "terminated"
      then none
      else if i.state == "stopped"
      then if any (is_stop_at i.id now) t.instance_stopped then some integrity_error else none
      else if is_none (open_stop i.id t.instance_stopped)
      then none
      else some operational_error
]

terminated-ne-stopped : ◌≢◌ {A = String} "terminated" "stopped"
unfolding string_eq
terminated-ne-stopped = ne_of_== "terminated" "stopped" refl

-- The account that an instance with a key is billed to.
pub owner : Instance → String
owner i = elim i.key_name [ none ↦ "" | some key ↦ user_from_key key ]

module _ (julianday : String → Option ℕ) where
  -- The tables after a sighting by the account `user`.
  unfoldable pub recorded : String → String → Instance → Tables → Tables
  recorded user now i t =
      if i.state == "terminated"
      then if is_none (end_time_of (lookup i.id t.instances))
        then record t {
          instances = insert i.id (row_of julianday i user now (julianday now)) t.instances;
        }
        else t
      else record t {
        instances = insert i.id (row_of julianday i user now none) t.instances;
        instance_stopped =
            if i.state == "stopped"
            then t.instance_stopped
              ++ (record { instance_id = i.id; stopped_time = now; running_time = none } ∷ [])
            else t.instance_stopped;
      }

  module _ (now : String) (i : Instance) (user : String) (t : Tables) (j : Option Tables) where
    sighting_terminated :
        i.state ≡ "terminated"
        → sighting julianday now i user (record { tables = t; journal = j })
          ≡ (ok tt, record { tables = recorded user now i t; journal = j })
    unfolding sighting recorded
    sighting_terminated h = ground (arith, terminated-ne-stopped)

    sighting_stopped :
        i.state ≡ "stopped"
        → any (is_stop_at i.id now) t.instance_stopped ≡ false
        → sighting julianday now i user (record { tables = t; journal = j })
          ≡ (ok tt, record { tables = recorded user now i t; journal = j })
    unfolding sighting recorded insert_stopped
    sighting_stopped h k = ground (arith, terminated-ne-stopped)

    sighting_taken :
        i.state ≡ "stopped"
        → any (is_stop_at i.id now) t.instance_stopped ≡ true
        → let (r, db) = sighting julianday now i user (record { tables = t; journal = j }) in
          (r ≡ raised integrity_error) × (db.journal ≡ j)
    unfolding sighting insert_stopped
    sighting_taken h k = ground (arith, terminated-ne-stopped)

    sighting_live :
        i.state ≢ "terminated"
        → i.state ≢ "stopped"
        → open_stop i.id t.instance_stopped ≡ none
        → sighting julianday now i user (record { tables = t; journal = j })
          ≡ (ok tt, record { tables = recorded user now i t; journal = j })
    unfolding sighting recorded
    sighting_live h k o = ground arith

    sighting_resumed :
        (stop : String)
        → i.state ≢ "terminated"
        → i.state ≢ "stopped"
        → open_stop i.id t.instance_stopped ≡ some stop
        → sighting julianday now i user (record { tables = t; journal = j })
          ≡ (raised operational_error, record { tables = t; journal = j })
    unfolding sighting
    sighting_resumed stop h k o = rw (==_of_ne _ _ h, ==_of_ne _ _ k, sighting) (simp o)

  -- How a sighting ends that began at the tables `t`.
  abbrev pub Ends : Tables → Tables → Option Exn → Result (Unit {0}) × Db → Type 0
  Ends t after none (r, db) = (r ≡ ok tt) × (db ≡ closed after)
  Ends t after (some e) (r, db) = (r ≡ raised e) × (durable db ≡ t)

  -- What is known of a sighting that began in a transaction over `t`.
  abbrev Sighted : Tables → Tables → Option Exn → Result (Unit {0}) × Db → Type 0
  Sighted t after none (r, db) = (r ≡ ok tt) × (db ≡ record { tables = after; journal = some t })
  Sighted t after (some e) (r, db) = (r ≡ raised e) × (db.journal ≡ some t)

  sighting-Sighted :
      (now key : String) (i : Instance) (user : String) (t : Tables)
      → i.key_name ≡ some key
      → Sighted t
          (recorded user now i t)
          (refusal now i t)
          (sighting julianday now i user (record { tables = t; journal = some t }))
  unfolding refusal
  sighting-Sighted now key i user t hk = elim (string_eq.dec i.state "terminated") [
    | yes p ↦ ground (arith, sighting_terminated now i user t (some t) p)
    | no n ↦ elim (string_eq.dec i.state "stopped") [
      | yes p ↦ ground (
        arith,
        sighting_stopped now i user t (some t) p,
        sighting_taken now i user t (some t) p,
        terminated-ne-stopped,
      )
      | no m ↦ elim (Option-cases (open_stop i.id t.instance_stopped)) [
        | inl o ↦ ground (arith, sighting_live now i user t (some t) n m o)
        | inr (stop, o) ↦ ground (arith, sighting_resumed now i user t (some t) stop n m o)
      ]
    ]
  ]

  refusal_keyless :
      (now : String) (i : Instance) (t : Tables)
      → i.key_name ≡ none
      → refusal now i t ≡ some attribute_error
  unfolding refusal
  refusal_keyless now i t h = ground arith

  -- One sighting is one transaction: either every statement takes effect and the tables are those
  -- that `recorded` describes, or the call raises and the file keeps the tables from before.
  -- `refusal` says which: no key, a stop recorded at this very time, or an instance that is neither
  -- stopped nor terminated and has a stop with no `running_time`.
  pub update_instance-Ends :
      (now : String) (i : Instance) (t : Tables)
      → Ends t
          (recorded (owner i) now i t)
          (refusal now i t)
          (update_instance julianday now i (closed t))
  unfolding update_instance begin commit user_of owner
  update_instance-Ends now i t = elim (Option-cases i.key_name) [
    | inl h ↦ ground (arith, refusal_keyless now i t h)
    | inr (key, h) ↦ ground (arith, sighting-Sighted now key i (user_from_key key) t h)
  ]
