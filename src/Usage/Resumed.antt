-- ===== src/Usage/Resumed.antt =====
-- An instance that was seen stopped and runs again: the statement that should close its stop is one
-- that SQLite does not parse, so `update_instances` (record_usage.py) ends there.
use ec2_wrappers.Prelude.{◌≡◌, ◌≢◌, refl, sym, ◌∙◌, Bool, true, String, ℕ, Option, none, some, List}
use ec2_wrappers.Prelude.{[], ◌∷◌, ◌++◌, Exn, operational_error, any, arith, All, ok}
use ec2_wrappers.Prelude.{inl, inr, Option-cases, string_eq, ◌==◌}
use ec2_wrappers.Ec2.{Instance, Reservation, all_of}
use ec2_wrappers.Usage.{StoppedRow, Tables, durable, closed, open_stop, update_instances}
use ec2_wrappers.Usage.Sightings.{refusal, owner, recorded}
use ec2_wrappers.Usage.History.{
  IsOpen, IsValid, stop_of, replay, failure, ended, update_instances-replay, recorded-IsValid,
}

-- Some stop of the instance is on record.
abbrev pub has_stop : String → Tables → Bool
has_stop id t = any (λ r. r.instance_id == id) t.instance_stopped

-- An instance that is neither stopped nor terminated.
pub record IsLive (i : Instance) : Type 0 where
  pub not_terminated : i.state ≢ "terminated"
  pub not_stopped : i.state ≢ "stopped"

open_stop-ne-none :
    (id : String) (rows : List StoppedRow)
    → All IsOpen rows
    → any (λ r. r.instance_id == id) rows ≡ true
    → open_stop id rows ≢ none
unfolding open_stop
open_stop-ne-none id [] h k = cc
open_stop-ne-none id (r ∷ rows) (h, hs) k = ground (arith, open_stop-ne-none id rows hs)

refusal_resumed :
    (now key : String) (i : Instance) (t : Tables)
    → IsValid t
    → i.key_name ≡ some key
    → IsLive i
    → has_stop i.id t ≡ true
    → refusal now i t ≡ some operational_error
unfolding refusal
refusal_resumed now key i t v hk l h =
    ground (arith, open_stop-ne-none i.id t.instance_stopped v.all_open h)

any-append_left :
    (p : StoppedRow → Bool) (rows more : List StoppedRow)
    → any p rows ≡ true
    → any p (rows ++ more) ≡ true
any-append_left p [] more h = cc
any-append_left p (r ∷ rows) more h = ground (arith, any-append_left p rows more)

ended-eq-ok : (f : Option Exn) → ended f ≡ ok tt → f ≡ none
ended-eq-ok none h = refl
ended-eq-ok (some e) h = cc

module _ (julianday : String → Option ℕ) (now : String) where
  has_stop-recorded :
      (id : String) (i : Instance) (t : Tables)
      → has_stop id t ≡ true
      → has_stop id (recorded julianday (owner i) now i t) ≡ true
  unfolding recorded
  has_stop-recorded id i t h =
      ground (
        arith,
        any-append_left (λ r. r.instance_id == id) t.instance_stopped (stop_of i now ∷ []) h,
      )

  module _ (key : String) (i : Instance) (hk : i.key_name ≡ some key) (live : IsLive i) where
    replay_resumed :
        (before rest : List Instance) (t : Tables)
        → IsValid t
        → has_stop i.id t ≡ true
        → (replay julianday now (before ++ (i ∷ rest)) t ≡ replay julianday now before t)
          × (failure julianday now (before ++ (i ∷ rest)) t ≢ none)
    unfolding replay failure
    replay_resumed [] rest t v h = ground (arith, refusal_resumed now key i t v hk live h)
    replay_resumed (x ∷ before) rest t v h = elim (Option-cases (refusal now x t)) [
      | inl e ↦ ground (
        arith,
        replay_resumed before rest (recorded julianday (owner x) now x t)
            (recorded-IsValid julianday now x t e v) (has_stop-recorded i.id x t h),
      )
      | inr (_, e) ↦ ground arith
    ]

    -- From a valid database that has a stop of the instance on record, a run that meets the instance
    -- live raises, and nothing from there on is recorded: the file holds what the sightings before
    -- it recorded.
    pub update_instances_resumed :
        (reservations : List Reservation) (before rest : List Instance) (t : Tables)
        → IsValid t
        → has_stop i.id t ≡ true
        → all_of reservations ≡ before ++ (i ∷ rest)
        → let (r, db) = update_instances julianday now reservations (closed t) in
          (r ≢ ok tt) × (durable db ≡ replay julianday now before t)
    update_instances_resumed reservations before rest t v h e =
        let run = update_instances-replay julianday now reservations t in
        let (same, fails) = replay_resumed before rest t v h in
        (λ done. fails (ended-eq-ok _ (rw (← e) (sym run.0 ∙ done))), run.1 ∙ rw e same)
