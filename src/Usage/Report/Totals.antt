-- ===== src/Usage/Report/Totals.antt =====
-- What the reports (record_usage.py, usage_report.py) add up to.
use ec2_wrappers.Prelude.{
  ℕ, ◌+◌, ◌*◌, Bool, true, false, String, Option, none, some, List, [], ◌∷◌, ◌++◌,
}
use ec2_wrappers.Prelude.{Result, ok, raised, ◌≡◌, refl, ap, ◌∙◌, arith, All, Bool-cases, inl, inr}
use ec2_wrappers.Prelude.{string_eq, nat_eq, ◌==◌, ◌&&◌, not, if◌then◌else◌}
use ec2_wrappers.Prelude.Dict.{Dict, has_key}
use ec2_wrappers.Prelude.{Exec, return, bind_ok, gets, lift, ◌>>=◌, ◌>>◌}
use ec2_wrappers.Usage.{Tables, InstanceRow, Db, update_instances, update_spot_requests}
use ec2_wrappers.Usage.Report.{
  group, type_costs, has_ended, spot_rows, Section, Live, section, times, report_of, user_report,
}
use ec2_wrappers.Usage.Report.Pricing.{
  price, IsPriced, cost_of, report_set-group, section-report_set, ArePriced, spot_rows-IsPriced,
}

module _ (julianday : String → Option ℕ) (hours_of : Tables → String → InstanceRow → ℕ) where
  -- What the instances of a user cost, ended or not, each for itself.
  unfoldable pub owned : String → Tables → Dict String InstanceRow → ℕ
  owned username t [] = 0
  owned username t ((id, row) ∷ rows) =
      let rest = owned username t rows in
      if row.username == username
      then price (record {
        is_spot = row.is_spot;
        instance_type = row.instance_type;
        hours = hours_of t id row;
      })
          * hours_of t id row
        + rest
      else rest

  times-IsPriced :
      (ended : Bool) (username : String) (t : Tables) (rows : Dict String InstanceRow)
      → All (λ entry. has_key entry.1.instance_type type_costs ≡ true) rows
      → All IsPriced (times julianday hours_of ended username t rows)
  unfolding times
  times-IsPriced ended username t [] h = tt
  times-IsPriced ended username t ((id, row) ∷ rows) (p, h) =
      elim (Bool-cases
        (row.username == username && (if ended then has_ended row else not (has_ended row)))) [
          | inl b ↦ rw b (p, times-IsPriced ended username t rows h)
          | inr b ↦ rw b (times-IsPriced ended username t rows h)
        ]

  times-owned :
      (username : String) (t : Tables) (rows : Dict String InstanceRow)
      → cost_of (times julianday hours_of false username t rows)
          + cost_of (times julianday hours_of true username t rows)
        ≡ owned username t rows
  unfolding times owned
  times-owned username t [] = refl
  times-owned username t ((id, row) ∷ rows) =
      let ih = times-owned username t rows in
      elim (Bool-cases (row.username == username)) [
        | inr b ↦ rw b ih
        | inl b ↦ elim (Bool-cases (has_ended row)) [
          | inl c ↦ rw (b, c) (omega (arith, ih))
          | inr c ↦ rw (b, c) (omega (arith, ih))
        ]
      ]

  -- What a user is to pay: the spot requests for an hour each, and the instances.
  abbrev pub bill : String → Tables → ℕ
  bill username t =
      cost_of (spot_rows username t.pending_spot_requests) + owned username t t.instances

  report_of-bill :
      (username : String) (t : Tables)
      → ArePriced t
      → (sections : List Section) × (report_of julianday hours_of username true t
          ≡ ok (sections, bill username t))
  unfolding report_of
  report_of-bill username t (hi, hs) =
      let spot = spot_rows username t.pending_spot_requests in
      let pending = times julianday hours_of false username t t.instances in
      let finished = times julianday hours_of true username t t.instances in
      let (first, e1) =
        section-report_set "Pending spot requests" (group spot) (cost_of spot)
          (report_set-group spot (spot_rows-IsPriced username t.pending_spot_requests hs)) in
      let (second, e2) =
        section-report_set "Running instances" (group pending) (cost_of pending)
          (report_set-group pending (times-IsPriced false username t t.instances hi)) in
      let (lines, e3) = report_set-group finished (times-IsPriced true username t t.instances hi) in
      (
        first ++ (second ++ (("Finished instances", lines) ∷ [])),
        rw (report_of, e1, e2, e3)
            (ap (λ n. ok (first ++ (second ++ (("Finished instances", lines) ∷ [])), n))
              (omega (arith, times-owned username t t.instances))),
      )

  -- What the ended instances of a user cost, each for itself.
  unfoldable pub ended : String → Tables → Dict String InstanceRow → ℕ
  ended username t [] = 0
  ended username t ((id, row) ∷ rows) =
      let rest = ended username t rows in
      if row.username == username && has_ended row
      then price (record {
        is_spot = row.is_spot;
        instance_type = row.instance_type;
        hours = hours_of t id row;
      })
          * hours_of t id row
        + rest
      else rest

  times-ended :
      (username : String) (t : Tables) (rows : Dict String InstanceRow)
      → cost_of (times julianday hours_of true username t rows) ≡ ended username t rows
  unfolding times ended
  times-ended username t [] = refl
  times-ended username t ((id, row) ∷ rows) =
      let ih = times-ended username t rows in
      elim (Bool-cases (row.username == username && has_ended row)) [
        | inr b ↦ rw b ih
        | inl b ↦ rw b (omega (arith, ih))
      ]

  -- What a report on a user comes to: all, or without the pending the instances that have ended.
  abbrev pub due : Bool → String → Tables → ℕ
  due include_pending username t =
      if include_pending then bill username t else ended username t t.instances

  report_of-ended :
      (username : String) (t : Tables)
      → ArePriced t
      → (sections : List Section) × (report_of julianday hours_of username false t
          ≡ ok (sections, ended username t t.instances))
  unfolding report_of section
  report_of-ended username t (hi, hs) =
      let finished = times julianday hours_of true username t t.instances in
      let (lines, e) = report_set-group finished (times-IsPriced true username t t.instances hi) in
      (
        ("Finished instances", lines) ∷ [],
        rw (report_of, e)
            (ap (λ n. ok (("Finished instances", lines) ∷ [], n))
              (omega (arith, times-ended username t t.instances))),
      )

  report_of-due :
      (include_pending : Bool) (username : String) (t : Tables)
      → ArePriced t
      → (sections : List Section) × (report_of julianday hours_of username include_pending t
          ≡ ok (sections, due include_pending username t))
  report_of-due true username t h = report_of-bill username t h
  report_of-due false username t h = report_of-ended username t h

  -- What `include_live` does first.
  unfoldable pub refreshed : String → Option Live → Exec Db (Unit {0})
  refreshed username none = return tt
  refreshed username (some live) = do
    update_instances julianday live.now live.reservations
    update_spot_requests julianday (some username) live.requests

  then_rest :
      {A : Type 0} (q : Result (Unit {0}) × Db) (b : Exec Db (Unit {0})) (f : Exec Db A)
      (db db' : Db)
      → ((λ (_ : Db). q) >> b) db ≡ (ok tt, db')
      → ((λ (_ : Db). q) >>= (λ _. b >>= λ _. f)) db ≡ f db'
  then_rest (ok a, s) b f db db' h = bind_ok b (λ _. f) s db' tt h
  then_rest (raised e, s) b f db db' h = absurd (cc (ap (λ r. r.0) h))

  reported :
      (username : String) (include_pending : Bool) (live : Option Live) (db db' : Db)
      → refreshed username live db ≡ (ok tt, db')
      → user_report julianday hours_of username include_pending live db
        ≡ (report_of julianday hours_of username include_pending db'.tables, db')
  unfolding user_report refreshed
  reported username include_pending none db db' h =
      let same : (db ≡ db') = ap (λ r. r.1) h in
      ap (λ d. (report_of julianday hours_of username include_pending d.tables, d)) same
  reported username include_pending (some live) db db' h =
      then_rest (update_instances julianday live.now live.reservations db)
        (update_spot_requests julianday (some username) live.requests)
        (gets (λ d. d.tables) >>= λ t.
          lift (report_of julianday hours_of username include_pending t))
        db db' h

  -- Whether or not a report asks EC2 first, and includes what is pending: where the updates end well and
  -- the instance types that are then in the tables have a price, its total is what the tables make due
  -- then. That is the sum of what each spot request and each instance of the user costs, ended or not,
  -- or without the pending of what each ended instance costs, though the report adds up hours by type
  -- first. The database is as the updates left it.
  pub user_report-bill :
      (username : String) (include_pending : Bool) (live : Option Live) (db db' : Db)
      → refreshed username live db ≡ (ok tt, db')
      → ArePriced db'.tables
      → (sections : List Section) × (user_report julianday hours_of username include_pending live db
          ≡ (ok (sections, due include_pending username db'.tables), db'))
  user_report-bill username include_pending live db db' h k =
      let (sections, e) = report_of-due include_pending username db'.tables k in
      (sections, reported username include_pending live db db' h ∙ ap (λ r. (r, db')) e)

  -- A report that asks EC2 nothing and includes the pending.
  pub user_report-stored :
      (username : String) (db : Db)
      → ArePriced db.tables
      → (sections : List Section) × (user_report julianday hours_of username true none db
          ≡ (ok (sections, bill username db.tables), db))
  unfolding refreshed
  user_report-stored username db h = user_report-bill username true none db db refl h
