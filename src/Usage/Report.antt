-- ===== src/Usage/Report.antt =====
-- The reports of record_usage.py, and what usage_report.py makes of them. Costs are exact, in
-- hundred-thousandths of a dollar. The text of the reports is left out but for its numbers.
pub mod Totals
pub mod Pricing
pub mod Users
mod Tests
use ec2_wrappers.Prelude.{
  ℕ, ◌+◌, ◌*◌, Bool, true, false, String, Option, none, some, List, [], ◌∷◌, ◌++◌,
}
use ec2_wrappers.Prelude.{
  Result, ok, raised, Exec, return, lift, key_error, gets, when, ◌>>=◌, ◌>>◌, contains, is_empty,
}
use ec2_wrappers.Prelude.{string_eq, nat_eq, ◌==◌, ◌&&◌, ◌||◌, not, if◌then◌else◌}
use ec2_wrappers.Prelude.Text.{starts_with}
use ec2_wrappers.Prelude.Dict.{Dict, lookup}
use ec2_wrappers.Ec2.{Reservation, SpotRequest}
use ec2_wrappers.Usage.{Tables, InstanceRow, SpotRow, Db, update_instances, update_spot_requests}

-- A row of a query.
pub record Row : Type 0 where
  pub is_spot : ℕ
  pub instance_type : String
  pub hours : ℕ

abbrev pub same_group : Row → Row → Bool
same_group r q = r.is_spot == q.is_spot && r.instance_type == q.instance_type

-- `SUM(hours) … GROUP BY is_spot, instance_type`, with the groups in the order of their first rows.
unfoldable pub add_row : Row → List Row → List Row
add_row r [] = r ∷ []
add_row r (q ∷ groups) =
    let rest = add_row r groups in
    if same_group r q then record q { hours = q.hours + r.hours } ∷ groups else q ∷ rest

unfoldable pub group : List Row → List Row
group [] = []
group (row ∷ rows) = add_row row (group rows)

-- INSTANCE_COST of record_usage.py, in tenths.
unfoldable pub type_costs : Dict String ℕ
type_costs =
    ("m1.small", 10)
    ∷ ("m1.large", 40)
    ∷ ("m1.xlarge", 80)
    ∷ ("t1.micro", 2)
    ∷ ("m2.xlarge", 59)
    ∷ ("m2.2xlarge", 118)
    ∷ ("m2.4xlarge", 236)
    ∷ ("c1.medium", 20)
    ∷ ("c1.xlarge", 80)
    ∷ ("cc1.4xlarge", 188)
    ∷ []

-- The price of an hour: COST_BASE is .085, and SPOT_FACTOR is 0.7.
abbrev pub hourly : ℕ → ℕ → ℕ
hourly spot cost = cost * (if spot == 0 then 850 else 595)

-- A line of a report: the row, the price of an hour, and the product.
pub record Line : Type 0 where
  pub row : Row
  pub estimate : ℕ
  pub subtotal : ℕ

unfoldable pub report_set : List Row → Result (List Line × ℕ)
report_set [] = ok ([], 0)
report_set (r ∷ rows) = elim (lookup r.instance_type type_costs) [
  | none ↦ raised (key_error r.instance_type)
  | some cost ↦ elim (report_set rows) [
    | raised e ↦ raised e
    | ok (lines, total) ↦
        let estimate = hourly r.is_spot cost in
        let subtotal = estimate * r.hours in
        ok (record { row = r; estimate = estimate; subtotal = subtotal } ∷ lines, subtotal + total)
  ]
]

abbrev pub has_ended : InstanceRow → Bool
has_ended row = elim row.end_time [ none ↦ false | some t ↦ true ]

-- One row for each spot request of the user, whose hours are its count.
unfoldable pub spot_rows : String → Dict String SpotRow → List Row
spot_rows username [] = []
spot_rows username ((id, row) ∷ rows) =
    let rest = spot_rows username rows in
    if row.username == username
    then record { is_spot = 1; instance_type = row.instance_type; hours = 1 } ∷ rest
    else rest

-- The answers of EC2 to the updates of one user, and the time.
pub record Live : Type 0 where
  pub now : String
  pub reservations : List Reservation
  pub requests : List SpotRequest

-- A section of a report: its title and its lines.
abbrev pub Section : Type 0
Section = String × List Line

-- A section that is left out where it has no rows.
unfoldable pub section : String → List Row → Result (List Section × ℕ)
section title [] = ok ([], 0)
section title (row ∷ rows) = elim (report_set (row ∷ rows)) [
  | raised e ↦ raised e
  | ok (lines, total) ↦ ok ((title, lines) ∷ [], total)
]

-- `users`: the names in `instances`, each once.
unfoldable pub users : Dict String InstanceRow → List String
users [] = []
users ((id, row) ∷ rows) =
    let rest = users rows in if contains rest row.username then rest else row.username ∷ rest

-- `hours` is the column of the two views, whose arithmetic is in floating point. It is no NULL: the
-- launch time of an instance is a text that `julianday` reads.
module _ (julianday : String → Option ℕ) (hours_of : Tables → String → InstanceRow → ℕ) where
  -- The rows of the user in `finished_instance_times` or `pending_instance_times`.
  unfoldable pub times : Bool → String → Tables → Dict String InstanceRow → List Row
  times ended username t [] = []
  times ended username t ((id, row) ∷ rows) =
      let rest = times ended username t rows in
      if row.username == username && (if ended then has_ended row else not (has_ended row))
      then record {
        is_spot = row.is_spot;
        instance_type = row.instance_type;
        hours = hours_of t id row;
      }
        ∷ rest
      else rest

  -- What `user_report` makes of the tables.
  unfoldable pub report_of : String → Bool → Tables → Result (List Section × ℕ)
  report_of username include_pending t =
      let finished = group (times true username t t.instances) in
      let pending = if include_pending then group (times false username t t.instances) else [] in
      let spot =
        if include_pending then group (spot_rows username t.pending_spot_requests) else [] in
      elim (section "Pending spot requests" spot) [
        | raised e ↦ raised e
        | ok (first, spot_total) ↦ elim (section "Running instances" pending) [
          | raised e ↦ raised e
          | ok (second, pending_total) ↦ elim (report_set finished) [
            | raised e ↦ raised e
            | ok (lines, total) ↦ ok (
              first ++ (second ++ (("Finished instances", lines) ∷ [])),
              spot_total + pending_total + total,
            )
          ]
        ]
      ]

  -- `user_report`; `none` is `include_live=False`.
  unfoldable pub user_report : String → Bool → Option Live → Exec Db (List Section × ℕ)
  user_report username include_pending none = do
    t ← gets (λ db. db.tables)
    lift (report_of username include_pending t)
  user_report username include_pending (some live) = do
    update_instances julianday live.now live.reservations
    update_spot_requests julianday (some username) live.requests
    t ← gets (λ db. db.tables)
    lift (report_of username include_pending t)

  -- The loop of usage_report.py over all users, with the sum.
  unfoldable pub report_users : List String → Exec Db (List (String × ℕ) × ℕ)
  report_users [] = return ([], 0)
  report_users (user ∷ rest) = do
    report ← user_report user true none
    more ← report_users rest
    return ((user, report.1) ∷ more.0, report.1 + more.1)

  unfoldable pub report_all : Exec Db (List (String × ℕ) × ℕ)
  report_all = do names ← gets (λ db. users db.tables.instances); report_users names

-- The user whom usage_report.py reports on.
unfoldable pub reported_user : String → List String → String
reported_user real [] = real
reported_user real (name ∷ rest) =
    if (real == "cs61c") || (starts_with real "cs61c-t" || (real == "charles")) then name else real
