-- ===== src/Usage/History.antt =====
-- What a whole run of `update_instances` (record_usage.py) leaves in the file.
use ec2_wrappers.Prelude.{◌≡◌, ◌≢◌, refl, Bool, false, String, ℕ, Option, none, some, List}
use ec2_wrappers.Prelude.{[], ◌∷◌, ◌++◌, Result, ok, raised, Exn, any, arith}
use ec2_wrappers.Prelude.{inl, inr, Option-cases, string_eq, for_each}
use ec2_wrappers.Prelude.{All, All-append}
use ec2_wrappers.Prelude.Dict.{lookup, NodupKeys, insert-NodupKeys, lookup-insert}
use ec2_wrappers.Ec2.{Instance, Reservation, all_of}
use ec2_wrappers.Usage.{
  StoppedRow, Tables, durable, closed, is_stop_at, row_of, update_instance, update_instances,
  end_time_of,
}
use ec2_wrappers.Usage.Sightings.{refusal, owner, recorded, update_instance-Ends}

-- The result of a run that ends early for this reason, if there is one.
abbrev pub ended : Option Exn → Result (Unit {0})
ended none = ok tt
ended (some e) = raised e

module _ (julianday : String → Option ℕ) (now : String) where
  -- The tables after the sightings of a list, up to the first that is refused.
  unfoldable pub replay : List Instance → Tables → Tables
  replay [] t = t
  replay (i ∷ rest) t =
      let next = replay rest (recorded julianday (owner i) now i t) in
      elim (refusal now i t) [ none ↦ next | some e ↦ t ]

  -- Why the run ends early, if it does.
  unfoldable pub failure : List Instance → Tables → Option Exn
  failure [] t = none
  failure (i ∷ rest) t =
      let next = failure rest (recorded julianday (owner i) now i t) in
      elim (refusal now i t) [ none ↦ next | some e ↦ some e ]

  for_each-replay :
      (is : List Instance) (t : Tables)
      → let (r, db) = for_each is (update_instance julianday now) (closed t) in
        (r ≡ ended (failure is t)) × (durable db ≡ replay is t)
  unfolding replay failure
  for_each-replay [] t = (refl, refl)
  for_each-replay (i ∷ rest) t = elim (Option-cases (refusal now i t)) [
    | inl h ↦ ground (
      arith,
      update_instance-Ends julianday now i t,
      for_each-replay rest (recorded julianday (owner i) now i t),
    )
    | inr (e, h) ↦ ground (arith, update_instance-Ends julianday now i t)
  ]

  -- A run of `update_instances` ends as the first refused sighting does, and the file then holds
  -- what the sightings before it recorded; with no refusal it holds what all of them recorded.
  pub update_instances-replay :
      (reservations : List Reservation) (t : Tables)
      → let (r, db) = update_instances julianday now reservations (closed t) in
        (r ≡ ended (failure (all_of reservations) t))
        × (durable db ≡ replay (all_of reservations) t)
  unfolding update_instances
  update_instances-replay reservations t = for_each-replay (all_of reservations) t

  -- What every recorded sighting keeps, a run keeps.
  pub replay_inv :
      (Q : Instance → Type 0) (P : Tables → Type 0)
      → ((i : Instance) (t : Tables)
          → Q i
          → refusal now i t ≡ none
          → P t
          → P (recorded julianday (owner i) now i t))
      → (is : List Instance) (t : Tables) → All Q is
      → P t
      → P (replay is t)
  unfolding replay
  replay_inv Q P keep [] t q h = h
  replay_inv Q P keep (i ∷ rest) t (q, qs) h = elim (Option-cases (refusal now i t)) [
    | inl e ↦ rw (e, replay) (replay_inv Q P keep rest _ qs (keep i t q e h))
    | inr (x, e) ↦ rw (e, replay) h
  ]

All-unit : (is : List Instance) → All (λ i. Unit {0}) is
All-unit [] = tt
All-unit (i ∷ is) = (tt, All-unit is)

-- The row that a sighting of a stopped instance adds.
abbrev pub stop_of : Instance → String → StoppedRow
stop_of i at = record { instance_id = i.id; stopped_time = at; running_time = none }

-- No stop of an instance stands twice under one time.
abbrev pub NodupStops : List StoppedRow → Type 0
NodupStops [] = Unit
NodupStops (r ∷ rows) =
    (any (is_stop_at r.instance_id r.stopped_time) rows ≡ false) × NodupStops rows

abbrev pub IsOpen : StoppedRow → Type 0
IsOpen r = r.running_time ≡ none

-- The primary keys are unique, and no stop has a `running_time`.
pub record IsValid (t : Tables) : Type 0 where
  pub nodup : NodupKeys t.instances
  pub nodup_stops : NodupStops t.instance_stopped
  pub all_open : All IsOpen t.instance_stopped

any-append :
    (p : StoppedRow → Bool) (rows : List StoppedRow) (r : StoppedRow)
    → any p rows ≡ false
    → p r ≡ false
    → any p (rows ++ (r ∷ [])) ≡ false
any-append p [] r h k = ground arith
any-append p (x ∷ rows) r h k = ground (arith, any-append p rows r)

NodupStops-append :
    (rows : List StoppedRow) (r : StoppedRow)
    → NodupStops rows
    → any (is_stop_at r.instance_id r.stopped_time) rows ≡ false
    → NodupStops (rows ++ (r ∷ []))
NodupStops-append [] r u h = (refl, tt)
NodupStops-append (x ∷ rows) r u h =
    ground
      (arith, NodupStops-append rows r, any-append (is_stop_at x.instance_id x.stopped_time) rows r)

module _ (julianday : String → Option ℕ) (now : String) where
  stopped_fresh :
      (i : Instance) (t : Tables)
      → refusal now i t ≡ none
      → i.state ≢ "terminated"
      → i.state ≡ "stopped"
      → any (is_stop_at i.id now) t.instance_stopped ≡ false
  unfolding refusal
  stopped_fresh i t h n p = ground arith

  pub recorded-IsValid :
      (i : Instance) (t : Tables)
      → refusal now i t ≡ none
      → IsValid t
      → IsValid (recorded julianday (owner i) now i t)
  unfolding recorded
  recorded-IsValid i t h v = elim (string_eq.dec i.state "terminated") [
    | yes p ↦ ground (
      arith,
      insert-NodupKeys i.id (row_of julianday i (owner i) now (julianday now)) t.instances v.nodup,
    )
    | no n ↦ ground (
      arith,
      stopped_fresh i t h n,
      insert-NodupKeys i.id (row_of julianday i (owner i) now none) t.instances v.nodup,
      NodupStops-append t.instance_stopped (stop_of i now) v.nodup_stops,
      All-append IsOpen t.instance_stopped (stop_of i now ∷ []) v.all_open (refl, tt),
    )
  ]

  -- A sighting of another instance, or of a terminated one whose end is known, leaves its end.
  recorded-end_time :
      (id : String) (e : ℕ) (i : Instance) (t : Tables)
      → (i.id ≡ id → i.state ≡ "terminated")
      → end_time_of (lookup id t.instances) ≡ some e
      → end_time_of (lookup id (recorded julianday (owner i) now i t).instances) ≡ some e
  unfolding recorded
  recorded-end_time id e i t q h = elim (string_eq.dec i.id id) [
    | yes p ↦ ground (arith, q p)
    | no n ↦ ground (
      arith,
      lookup-insert id i.id (row_of julianday i (owner i) now (julianday now)) t.instances,
      lookup-insert id i.id (row_of julianday i (owner i) now none) t.instances,
    )
  ]

  -- Once the file has an end time for an instance, it keeps that time through every run in which the
  -- instance, where it is seen, is seen terminated.
  pub update_instances-end_time :
      (id : String) (e : ℕ) (reservations : List Reservation) (t : Tables)
      → All (λ i. i.id ≡ id → i.state ≡ "terminated") (all_of reservations)
      → end_time_of (lookup id t.instances) ≡ some e
      → let db = (update_instances julianday now reservations (closed t)).1 in
        end_time_of (lookup id (durable db).instances) ≡ some e
  update_instances-end_time id e reservations t q h =
      rw ((update_instances-replay julianday now reservations t).1) (
        replay_inv julianday now (λ i. i.id ≡ id → i.state ≡ "terminated")
          (λ t'. end_time_of (lookup id t'.instances) ≡ some e)
          (λ i t' qi _. recorded-end_time id e i t' qi) (all_of reservations) t q h)
