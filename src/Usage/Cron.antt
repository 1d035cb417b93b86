-- ===== src/Usage/Cron.antt =====
-- usage_cron.py: the instances and then the spot requests of the whole account, in one run.
use ec2_wrappers.Prelude.{◌≡◌, refl, String, ℕ, Option, none, some, List, [], ◌∷◌, Exn}
use ec2_wrappers.Prelude.{
  ok, arith, Exec, ◌>>◌, inl, inr, Option-cases, string_eq, for_each, sym, ◌∙◌, All,
}
use mathlib.Core.Path.{subst}
use ec2_wrappers.Prelude.Dict.{lookup, NodupKeys}
use ec2_wrappers.Ec2.{Instance, Reservation, SpotRequest, all_of}
use ec2_wrappers.Usage.{
  SpotRow, Tables, Db, durable, closed, update_instance, update_instances, update_spot_requests,
}
use ec2_wrappers.Usage.Sightings.{refusal, owner, recorded, update_instance-Ends}
use ec2_wrappers.Usage.History.{replay, failure, ended, replay_inv, update_instances-replay}
use ec2_wrappers.Usage.Spot.{refused, last_open, kept-none, update_spot_requests_lem}

abbrev pub earlier : Option Exn → Option Exn → Option Exn
earlier none second = second
earlier (some e) second = some e

module _ (julianday : String → Option ℕ) (now : String) where
  -- The tables are there already.
  unfoldable pub usage_cron : List Reservation → List SpotRequest → Exec Db (Unit {0})
  usage_cron reservations requests = do
    update_instances julianday now reservations
    update_spot_requests julianday none requests

  -- A run without a refusal leaves no open transaction.
  for_each-closed :
      (is : List Instance) (t : Tables)
      → failure julianday now is t ≡ none
      → for_each is (update_instance julianday now) (closed t)
        ≡ (ok tt, closed (replay julianday now is t))
  unfolding replay failure
  for_each-closed [] t h = refl
  for_each-closed (i ∷ rest) t h = elim (Option-cases (refusal now i t)) [
    | inl e ↦ ground (
      arith,
      update_instance-Ends julianday now i t,
      for_each-closed rest (recorded julianday (owner i) now i t),
    )
    | inr (x, e) ↦ ground arith
  ]

  recorded-pending :
      (i : Instance) (t : Tables)
      → (recorded julianday (owner i) now i t).pending_spot_requests ≡ t.pending_spot_requests
  unfolding recorded
  recorded-pending i t = ground arith

  All-unit : (is : List Instance) → All (λ i. Unit {0}) is
  All-unit [] = tt
  All-unit (i ∷ is) = (tt, All-unit is)

  replay-pending :
      (is : List Instance) (t : Tables)
      → (replay julianday now is t).pending_spot_requests ≡ t.pending_spot_requests
  replay-pending is t =
      replay_inv julianday now (λ i. Unit {0})
        (λ u. u.pending_spot_requests ≡ t.pending_spot_requests)
        (λ i u _ _ h. recorded-pending i u ∙ h) is t (All-unit is) refl

  -- The exception that ends the run: that of the first sighting that is refused, or else that of the
  -- first spot request.
  abbrev pub ends_with : List Instance → List SpotRequest → Tables → Option Exn
  ends_with is requests t = earlier (failure julianday now is t) (refused requests)

  -- What the run leaves in the file under the id of a spot request.
  abbrev pub pending_after : Option Exn → String → List SpotRequest → Tables → Option SpotRow
  pending_after none id requests t = last_open julianday id requests none
  pending_after (some e) id requests t = lookup id t.pending_spot_requests

  -- One run of the program: it ends as the first refused sighting does, and the file then holds what the
  -- sightings before it recorded. With no such refusal all sightings are recorded, and the run raises
  -- AttributeError where EC2 reports a spot request without a key. Where the run raises, the pending
  -- spot requests are those from before it; otherwise under every id stands the last request that EC2
  -- reports open, whatever stood there.
  pub usage_cron_lem :
      (reservations : List Reservation) (requests : List SpotRequest) (t : Tables) (id : String)
      → NodupKeys t.pending_spot_requests
      → let (r, db) = usage_cron reservations requests (closed t) in
        let is = all_of reservations in
        (r ≡ ended (ends_with is requests t))
        × ((durable db).instances ≡ (replay julianday now is t).instances)
        × ((durable db).instance_stopped ≡ (replay julianday now is t).instance_stopped)
        × (lookup id (durable db).pending_spot_requests
            ≡ pending_after (ends_with is requests t) id requests t)
  unfolding usage_cron update_instances
  usage_cron_lem reservations requests t id u =
      let is = all_of reservations in
      elim (Option-cases (failure julianday now is t)) [
        | inl e ↦
            let rows = replay-pending is t in
            let spot =
              update_spot_requests_lem julianday none requests (replay julianday now is t) id
                (subst NodupKeys (sym rows) u) in
            elim (Option-cases (refused requests)) [
              | inl n ↦ ground (
                arith,
                for_each-closed is t e,
                rows,
                kept-none (lookup id (replay julianday now is t).pending_spot_requests),
                spot,
              )
              | inr (x, n) ↦ ground (arith, for_each-closed is t e, rows, spot)
            ]
        | inr (x, e) ↦
            ground
              (arith, update_instances-replay julianday now reservations t, replay-pending is t)
      ]
