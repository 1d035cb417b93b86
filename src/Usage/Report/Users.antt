-- ===== src/Usage/Report/Users.antt =====
-- The report of usage_report.py over all users.
use mathlib.Core.Path.{subst}
use ec2_wrappers.Prelude.{ℕ, ◌+◌, ◌*◌, true, false, String, Option, none, List, [], ◌∷◌}
use ec2_wrappers.Prelude.{
  ok, ◌≡◌, refl, sym, ap, ◌∙◌, arith, All, Bool-cases, inl, inr, contains, bind_ok, return, ◌>>=◌,
}
use ec2_wrappers.Prelude.{string_eq, ◌==◌, ==_refl, eq_of_==, if◌then◌else◌}
use ec2_wrappers.Prelude.Dict.{Dict}
use ec2_wrappers.Usage.{Tables, InstanceRow, Db}
use ec2_wrappers.Usage.Report.{spot_rows, user_report, users, report_users, report_all}
use ec2_wrappers.Usage.Report.Totals.{owned, bill, user_report-stored}
use ec2_wrappers.Usage.Report.Pricing.{price, cost_of, ArePriced}

-- The sum of a number for each name.
abbrev pub sum_of : (String → ℕ) → List String → ℕ
sum_of f [] = 0
sum_of f (name ∷ names) = f name + sum_of f names

abbrev Distinct : List String → Type 0
Distinct [] = Unit
Distinct (name ∷ names) = (contains names name ≡ false) × Distinct names

sum_of-ap :
    (f g : String → ℕ) (names : List String)
    → ((u : String) → f u ≡ g u)
    → sum_of f names ≡ sum_of g names
sum_of-ap f g [] h = refl
sum_of-ap f g (u ∷ names) h = omega (arith, h u, sum_of-ap f g names h)

-- A number that is counted for one name only.
abbrev counted_for : String → ℕ → (String → ℕ) → String → ℕ
counted_for name x f u = if name == u then x + f u else f u

sum_of-absent :
    (name : String) (x : ℕ) (f : String → ℕ) (names : List String)
    → contains names name ≡ false
    → sum_of (counted_for name x f) names ≡ sum_of f names
sum_of-absent name x f [] h = refl
sum_of-absent name x f (u ∷ names) h =
    let n : ((name == u) ≡ false) = ground (arith, h) in
    let k : (contains names name ≡ false) = ground (arith, h) in
    rw (n, sum_of-absent name x f names k) refl

sum_of-counted :
    (name : String) (x : ℕ) (f : String → ℕ) (names : List String)
    → Distinct names
    → contains names name ≡ true
    → sum_of (counted_for name x f) names ≡ x + sum_of f names
sum_of-counted name x f [] d h = absurd (ground arith)
sum_of-counted name x f (u ∷ names) (a, d) h = elim (Bool-cases (name == u)) [
  | inl b ↦
      let e =
        sum_of-absent name x f names
          (subst (λ v. contains names v ≡ false) (sym (eq_of_== name u b)) a) in
      rw (b, e) (omega arith)
  | inr b ↦
      let k : (contains names name ≡ true) = ground (arith, h, b) in
      let e = sum_of-counted name x f names d k in rw (b, e) (omega arith)
]

users-Distinct : (rows : Dict String InstanceRow) → Distinct (users rows)
unfolding users
users-Distinct [] = tt
users-Distinct ((id, row) ∷ rows) = elim (Bool-cases (contains (users rows) row.username)) [
  | inl b ↦ rw b (users-Distinct rows)
  | inr b ↦ rw b (b, users-Distinct rows)
]

sum_of-zero : (names : List String) → sum_of (λ u. 0) names ≡ 0
sum_of-zero [] = refl
sum_of-zero (u ∷ names) = omega (arith, sum_of-zero names)

contains-cons :
    (name : String) (names : List String) (rows : Dict String InstanceRow)
    → All (λ entry. contains names entry.1.username ≡ true) rows
    → All (λ entry. contains (name ∷ names) entry.1.username ≡ true) rows
contains-cons name names [] h = tt
contains-cons name names ((id, row) ∷ rows) (k, h) =
    (ground (arith, k), contains-cons name names rows h)

-- The names behind the next row are among the names with it.
covered :
    (names : List String) (name : String) (rows : Dict String InstanceRow)
    → All (λ entry. contains names entry.1.username ≡ true) rows
    → let more = if contains names name then names else name ∷ names in
      (contains more name ≡ true) × All (λ entry. contains more entry.1.username ≡ true) rows
covered names name rows h = elim (Bool-cases (contains names name)) [
  | inl b ↦ rw b (b, h)
  | inr b ↦ rw b (rw (==_refl name) refl, contains-cons name names rows h)
]

users-contains :
    (rows : Dict String InstanceRow)
    → All (λ entry. contains (users rows) entry.1.username ≡ true) rows
unfolding users
users-contains [] = tt
users-contains ((id, row) ∷ rows) = covered (users rows) row.username rows (users-contains rows)

module _ (julianday : String → Option ℕ) (hours_of : Tables → String → InstanceRow → ℕ) where
  -- What one instance costs.
  abbrev pub charge : Tables → String → InstanceRow → ℕ
  charge t id row =
      price (record {
        is_spot = row.is_spot;
        instance_type = row.instance_type;
        hours = hours_of t id row;
      })
      * hours_of t id row

  -- What all instances cost, whosever they are.
  abbrev pub all_instances : Tables → Dict String InstanceRow → ℕ
  all_instances t [] = 0
  all_instances t ((id, row) ∷ rows) = charge t id row + all_instances t rows

  sum_of-owned :
      (names : List String) (t : Tables) (rows : Dict String InstanceRow)
      → Distinct names
      → All (λ entry. contains names entry.1.username ≡ true) rows
      → sum_of (λ u. owned julianday hours_of u t rows) names ≡ all_instances t rows
  unfolding owned
  sum_of-owned names t [] d h = sum_of-zero names
  sum_of-owned names t ((id, row) ∷ rows) d (k, h) =
      sum_of-counted row.username (charge t id row) (λ u. owned julianday hours_of u t rows) names d
        k
      ∙ ap (λ n. charge t id row + n) (sum_of-owned names t rows d h)

  report_users-bill :
      (names : List String) (db : Db)
      → ArePriced db.tables
      → (lines : List (String × ℕ)) × (report_users julianday hours_of names db
          ≡ (ok (lines, sum_of (λ u. bill julianday hours_of u db.tables) names), db))
  unfolding report_users
  report_users-bill [] db h = ([], refl)
  report_users-bill (user ∷ names) db h =
      let (sections, e) = user_report-stored julianday hours_of user db h in
      let (lines, e') = report_users-bill names db h in
      (
        (user, bill julianday hours_of user db.tables) ∷ lines,
        bind_ok (user_report julianday hours_of user true none)
              (λ report.
                report_users julianday hours_of names
                >>= (λ more. return ((user, report.1) ∷ more.0, report.1 + more.1)))
              db db (sections, bill julianday hours_of user db.tables) e
            ∙ bind_ok (report_users julianday hours_of names)
                (λ more. return (
                  (user, bill julianday hours_of user db.tables) ∷ more.0,
                  bill julianday hours_of user db.tables + more.1,
                ))
                db db (lines, sum_of (λ u. bill julianday hours_of u db.tables) names) e',
      )

  sum_of-plus :
      (f g : String → ℕ) (names : List String)
      → sum_of (λ u. f u + g u) names ≡ sum_of f names + sum_of g names
  sum_of-plus f g [] = refl
  sum_of-plus f g (u ∷ names) = omega (arith, sum_of-plus f g names)

  -- The sum of the report over all users is what all instances cost, each counted once, together with
  -- the spot requests of the users that have an instance on record.
  pub report_all-all_instances :
      (db : Db)
      → ArePriced db.tables
      → (lines : List (String × ℕ)) × (report_all julianday hours_of db ≡ (
        ok (
          lines,
          sum_of
                (λ u. cost_of (spot_rows u db.tables.pending_spot_requests))
                (users db.tables.instances)
              + all_instances db.tables db.tables.instances,
        ),
        db,
      ))
  unfolding report_all
  report_all-all_instances db h =
      let names = users db.tables.instances in
      let (lines, e) = report_users-bill names db h in
      (
        lines,
        e
            ∙ ap (λ n. (ok (lines, n), db))
                (sum_of-plus (λ u. cost_of (spot_rows u db.tables.pending_spot_requests))
                    (λ u. owned julianday hours_of u db.tables db.tables.instances) names
                  ∙ ap
                      (λ n.
                        sum_of (λ u. cost_of (spot_rows u db.tables.pending_spot_requests)) names
                        + n)
                      (sum_of-owned names db.tables db.tables.instances
                        (users-Distinct db.tables.instances) (users-contains db.tables.instances))),
      )
