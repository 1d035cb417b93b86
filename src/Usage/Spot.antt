-- ===== src/Usage/Spot.antt =====
-- `update_spot_requests` (record_usage.py) makes the table a snapshot of the open requests.
use ec2_wrappers.Prelude.{◌≡◌, refl, false, String, ℕ, Option, none, some, List}
use ec2_wrappers.Prelude.{
  [], ◌∷◌, ok, arith, Option-cases, Bool-cases, inl, inr, string_eq, ◌==◌, if◌then◌else◌, for_each,
}
use ec2_wrappers.Prelude.Dict.{Dict, lookup, insert, NodupKeys, lookup-insert}
use ec2_wrappers.Ec2.{SpotRequest}
use ec2_wrappers.Prelude.{Exn, raised, attribute_error}
use ec2_wrappers.Usage.History.{ended}
use ec2_wrappers.Usage.{
  SpotRow, Tables, closed, begin, commit, put_request, put_row, user_of, durable, delete_of,
  delete_pending, user_from_key, update_spot_requests,
}

-- What a `DELETE … WHERE username = ?` leaves of a row, or the `DELETE` of all rows.
pub kept : Option String → Option SpotRow → Option SpotRow
kept username none = none
kept none (some row) = none
kept (some user) (some row) =
    if user == "" then none else if row.username == user then none else some row

pub kept-none : (row : Option SpotRow) → kept none row ≡ none
unfolding kept
kept-none none = refl
kept-none (some row) = refl

lookup-delete_of :
    (user id : String) (rows : Dict String SpotRow)
    → NodupKeys rows
    → (user == "") ≡ false
    → lookup id (delete_of user rows) ≡ kept (some user) (lookup id rows)
unfolding delete_of kept
lookup-delete_of user id [] u h = refl
lookup-delete_of user id ((j, row) ∷ rows) (fresh, u) h =
    ground (arith, lookup-delete_of user id rows u h)

lookup-delete_pending :
    (username : Option String) (id : String) (rows : Dict String SpotRow)
    → NodupKeys rows
    → lookup id (delete_pending username rows) ≡ kept username (lookup id rows)
unfolding delete_pending kept
lookup-delete_pending none id rows u = elim (Option-cases (lookup id rows)) [
  | inl e ↦ ground arith
  | inr (row, e) ↦ ground arith
]
lookup-delete_pending (some user) id rows u = elim (Bool-cases (user == "")) [
  | inl e ↦ elim (Option-cases (lookup id rows)) [
    | inl n ↦ ground arith
    | inr (row, n) ↦ ground arith
  ]
  | inr e ↦ rw (e, delete_pending) (lookup-delete_of user id rows u e)
]

-- The exception of the first request without a key, whatever its state.
abbrev pub refused : List SpotRequest → Option Exn
refused [] = none
refused (r ∷ rest) = elim r.key_name [ none ↦ some attribute_error | some key ↦ refused rest ]

-- The user that a row is written for.
abbrev pub user_in : Option String → String
user_in none = ""
user_in (some key) = user_from_key key

-- What stands in the file after a run that may have been refused.
abbrev pub unless_refused {ℓ} : {A : Type ℓ} → Option Exn → A → A → A
unless_refused none new old = new
unless_refused (some e) new old = old

module _ (julianday : String → Option ℕ) where
  pub row_of_request : SpotRequest → SpotRow
  row_of_request r = record {
    instance_type = r.instance_type;
    request_time = julianday r.create_time;
    username = user_in r.key_name;
  }

  -- The row of the last open request with the id in the answer of EC2, or what stood there before.
  pub last_open : String → List SpotRequest → Option SpotRow → Option SpotRow
  last_open id [] old = old
  last_open id (r ∷ rest) old =
      last_open id rest
        (if r.state == "open" then (if id == r.id then some (row_of_request r) else old) else old)

  put_requests :
      (requests : List SpotRequest) (t : Tables) (j : Option Tables) (id : String)
      → refused requests ≡ none
      → let (r, db) =
          for_each requests (put_request julianday) (record { tables = t; journal = j }) in
        (r ≡ ok tt)
        × (db.journal ≡ j)
        × (db.tables.instances ≡ t.instances)
        × (db.tables.instance_stopped ≡ t.instance_stopped)
        × (lookup id db.tables.pending_spot_requests
            ≡ last_open id requests (lookup id t.pending_spot_requests))
  unfolding put_request put_row user_of last_open row_of_request
  put_requests [] t j id h = (refl, refl, refl, refl, refl)
  put_requests (r ∷ rest) t j id h = elim (Option-cases r.key_name) [
    | inl k ↦ absurd (ground (arith, k, h))
    | inr (key, k) ↦
        let keyed : (refused rest ≡ none) = ground (arith, k, h) in
        elim (Bool-cases (r.state == "open")) [
          | inl e ↦
              let new : Dict String SpotRow =
                insert r.id (row_of_request r) t.pending_spot_requests in
              ground (
                arith,
                put_requests rest (record t { pending_spot_requests = new }) j id keyed,
                lookup-insert id r.id (row_of_request r) t.pending_spot_requests,
              )
          | inr e ↦ ground (arith, put_requests rest t j id keyed)
        ]
  ]

  -- A request without a key ends the loop with the transaction open.
  put_requests-refused :
      (requests : List SpotRequest) (t : Tables) (j : Option Tables) (e : Exn)
      → refused requests ≡ some e
      → let (r, db) =
          for_each requests (put_request julianday) (record { tables = t; journal = j }) in
        (r ≡ raised e) × (db.journal ≡ j)
  unfolding put_request put_row user_of
  put_requests-refused [] t j e h = absurd (cc h)
  put_requests-refused (r ∷ rest) t j e h = elim (Option-cases r.key_name) [
    | inl k ↦ ground (arith, k, h)
    | inr (key, k) ↦
        let later : (refused rest ≡ some e) = ground (arith, k, h) in
        elim (Bool-cases (r.state == "open")) [
          | inl o ↦ ground (
            arith,
            put_requests-refused rest
                (record t {
                  pending_spot_requests =
                      insert r.id
                        (record {
                          instance_type = r.instance_type;
                          request_time = julianday r.create_time;
                          username = user_from_key key;
                        })
                        t.pending_spot_requests;
                })
                j e later,
          )
          | inr o ↦ ground (arith, put_requests-refused rest t j e later)
        ]
  ]

  -- An update of the spot requests raises AttributeError where EC2 reports a request without a key, open
  -- or not, and the file is then as it was; otherwise it ends well and commits. It touches no other
  -- table. Under an id the file then holds the last request of that id that EC2 reports open, if there
  -- is one; otherwise it holds what stood there, unless the call was for all users, or for the user of
  -- that row.
  pub update_spot_requests_lem :
      (username : Option String) (requests : List SpotRequest) (t : Tables) (id : String)
      → NodupKeys t.pending_spot_requests
      → let (r, db) = update_spot_requests julianday username requests (closed t) in
        (r ≡ ended (refused requests))
        × ((durable db).instances ≡ t.instances)
        × ((durable db).instance_stopped ≡ t.instance_stopped)
        × (lookup id (durable db).pending_spot_requests
            ≡ unless_refused
                (refused requests)
                (last_open id requests (kept username (lookup id t.pending_spot_requests)))
                (lookup id t.pending_spot_requests))
  unfolding update_spot_requests begin commit
  update_spot_requests_lem username requests t id u =
      let rows = delete_pending username t.pending_spot_requests in
      elim (Option-cases (refused requests)) [
        | inl h ↦ ground (
          arith,
          put_requests requests (record t { pending_spot_requests = rows }) (some t) id h,
          lookup-delete_pending username id t.pending_spot_requests u,
        )
        | inr (e, h) ↦ ground (
          arith,
          put_requests-refused requests (record t { pending_spot_requests = rows }) (some t) e h,
        )
      ]
