-- ===== src/Usage/Report/Pricing.antt =====
-- What rows of the reports (record_usage.py) cost, before and after they are grouped.
use ec2_wrappers.Prelude.{ℕ, ◌+◌, ◌*◌, true, String, none, some, List, [], ◌∷◌}
use ec2_wrappers.Prelude.{
  Result, ok, raised, ◌≡◌, refl, ap, ◌∙◌, arith, All, Bool-cases, Option-cases, inl, inr,
}
use ec2_wrappers.Prelude.{string_eq, nat_eq, ◌==◌}
use ec2_wrappers.Prelude.Dict.{Dict, lookup, has_key}
use ec2_wrappers.Usage.{Tables, SpotRow}
use ec2_wrappers.Usage.Report.{
  Row, same_group, add_row, group, type_costs, hourly, Line, report_set, spot_rows, Section,
  section,
}

-- The price of an hour of a row, 0 for a type that has none.
unfoldable pub price : Row → ℕ
price r = elim (lookup r.instance_type type_costs) [ none ↦ 0 | some cost ↦ hourly r.is_spot cost ]

abbrev pub IsPriced : Row → Type 0
IsPriced r = has_key r.instance_type type_costs ≡ true

-- What rows cost, each for itself.
abbrev pub cost_of : List Row → ℕ
cost_of [] = 0
cost_of (r ∷ rows) = price r * r.hours + cost_of rows

report_set-cost_of :
    (rows : List Row)
    → All IsPriced rows
    → (lines : List Line) × (report_set rows ≡ ok (lines, cost_of rows))
unfolding report_set price
report_set-cost_of [] h = ([], refl)
report_set-cost_of (r ∷ rows) (p, h) =
    let (lines, e) = report_set-cost_of rows h in
    elim (Option-cases (lookup r.instance_type type_costs)) [
      | inl k ↦ absurd (ground (arith, k, p))
      | inr (cost, k) ↦ (
        record {
          row = r;
          estimate = hourly r.is_spot cost;
          subtotal = hourly r.is_spot cost * r.hours;
        }
            ∷ lines,
        rw (k, report_set, price, e) refl,
      )
    ]

price_hours : (q : Row) (n : ℕ) → price (record q { hours = n }) ≡ price q
unfolding price
price_hours q n = refl

price-same_group : (r q : Row) → same_group r q ≡ true → price q ≡ price r
unfolding price
price-same_group r q h =
    let t : (r.instance_type ≡ q.instance_type) = ground (arith, h) in
    let s : (r.is_spot ≡ q.is_spot) = ground (arith, h) in rw (t, s) refl

add_row-cost_of :
    (r : Row) (groups : List Row) → cost_of (add_row r groups) ≡ price r * r.hours + cost_of groups
unfolding add_row
add_row-cost_of r [] = refl
add_row-cost_of r (q ∷ groups) = elim (Bool-cases (same_group r q)) [
  | inl b ↦ rw b rw (price_hours q (q.hours + r.hours), price-same_group r q b) (omega arith)
  | inr b ↦ rw (b, add_row-cost_of r groups) (omega arith)
]

add_row-IsPriced :
    (r : Row) (groups : List Row)
    → IsPriced r
    → All IsPriced groups
    → All IsPriced (add_row r groups)
unfolding add_row
add_row-IsPriced r [] p h = (p, tt)
add_row-IsPriced r (q ∷ groups) p (k, h) = elim (Bool-cases (same_group r q)) [
  | inl b ↦ rw b (k, h)
  | inr b ↦ rw b (k, add_row-IsPriced r groups p h)
]

group-cost_of : (rows : List Row) → cost_of (group rows) ≡ cost_of rows
unfolding group
group-cost_of [] = refl
group-cost_of (r ∷ rows) =
    add_row-cost_of r (group rows) ∙ ap (λ n. price r * r.hours + n) (group-cost_of rows)

group-IsPriced : (rows : List Row) → All IsPriced rows → All IsPriced (group rows)
unfolding group
group-IsPriced [] h = tt
group-IsPriced (r ∷ rows) (p, h) = add_row-IsPriced r (group rows) p (group-IsPriced rows h)

pub report_set-group :
    (rows : List Row)
    → All IsPriced rows
    → (lines : List Line) × (report_set (group rows) ≡ ok (lines, cost_of rows))
report_set-group rows h =
    let (lines, e) = report_set-cost_of (group rows) (group-IsPriced rows h) in
    (lines, e ∙ ap (λ n. ok (lines, n)) (group-cost_of rows))

total_in : Result (List Line × ℕ) → ℕ
total_in (ok report) = report.1
total_in (raised e) = 0

pub section-report_set :
    (title : String) (rows : List Row) (n : ℕ)
    → (lines : List Line) × (report_set rows ≡ ok (lines, n))
    → (sections : List Section) × (section title rows ≡ ok (sections, n))
unfolding section report_set total_in
section-report_set title [] n (lines, e) = ([], ap (λ r. ok ([], total_in r)) e)
section-report_set title (r ∷ rows) n (lines, e) = ((title, lines) ∷ [], rw (e, section) refl)

-- Every instance type of the tables has a price.
abbrev pub ArePriced : Tables → Type 0
ArePriced t =
    All (λ entry. has_key entry.1.instance_type type_costs ≡ true) t.instances
    × All (λ entry. has_key entry.1.instance_type type_costs ≡ true) t.pending_spot_requests

pub spot_rows-IsPriced :
    (username : String) (rows : Dict String SpotRow)
    → All (λ entry. has_key entry.1.instance_type type_costs ≡ true) rows
    → All IsPriced (spot_rows username rows)
unfolding spot_rows
spot_rows-IsPriced username [] h = tt
spot_rows-IsPriced username ((id, row) ∷ rows) (p, h) =
    elim (Bool-cases (row.username == username)) [
      | inl b ↦ rw b (p, spot_rows-IsPriced username rows h)
      | inr b ↦ rw b (spot_rows-IsPriced username rows h)
    ]
