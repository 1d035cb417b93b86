-- ===== src/Usage/Report/Tests.antt =====
-- The reports (record_usage.py, usage_report.py) on a small database.
use ec2_wrappers.Prelude.{
  true, ◌≡◌, refl, ℕ, String, Option, none, some, List, [], ◌∷◌, ok, string_eq, nat_eq,
}
use ec2_wrappers.Usage.{Tables, InstanceRow, Db, closed}
use ec2_wrappers.Usage.Report.{Section, user_report, users, report_all, type_costs, spot_rows}
use ec2_wrappers.Usage.Report.Totals.{owned, refreshed, user_report-bill}
use ec2_wrappers.Usage.Report.Pricing.{price}
use ec2_wrappers.Usage.Report.Users.{report_all-all_instances}

abbrev row : String → String → Option ℕ → InstanceRow
row username instance_type end_time = record {
  instance_type = instance_type;
  start_time = some 0;
  end_time = end_time;
  last_seen = some 5;
  is_spot = 0;
  username = username;
}

-- Every instance ran three hours.
abbrev three : Tables → String → InstanceRow → ℕ
three t id r = 3

abbrev never : String → Option ℕ
never s = none

abbrev database : Db
database = closed (record {
  instances =
      ("i-1", row "ab" "m1.small" (some 5))
      ∷ ("i-2", row "ab" "m1.small" none)
      ∷ ("i-3", row "cd" "m1.large" (some 5))
      ∷ ("i-4", row "ab" "m1.small" (some 5))
      ∷ [];
  instance_stopped = [];
  pending_spot_requests =
      ("s-1", record { instance_type = "t1.micro"; request_time = none; username = "ab" }) ∷ [];
})

user_report-bill_example :
    (sections : List Section) × (user_report never three "ab" true none database
      ≡ (ok (sections, 77690), database))
unfolding string_eq nat_eq price type_costs owned spot_rows refreshed
user_report-bill_example =
    user_report-bill never three "ab" true none database database refl
      ((refl, (refl, (refl, (refl, tt)))), (refl, tt))

report_all-all_instances_example :
    (lines : List (String × ℕ)) × (report_all never three database ≡ (ok (lines, 179690), database))
unfolding string_eq nat_eq price type_costs spot_rows users
report_all-all_instances_example =
    report_all-all_instances never three database ((refl, (refl, (refl, (refl, tt)))), (refl, tt))
