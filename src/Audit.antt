-- ===== src/Audit.antt =====
-- audit.py: the audit log, and the calls that a setuid program makes with the rights of the user
-- who runs it. The kernel's calls are a parameter.
pub mod Log
pub mod Privileges
mod Tests
use ec2_wrappers.Prelude.{◌≡◌, ℕ, Bool, false, String, ◌<>◌, Option, none, some, Result, ok, raised}
use ec2_wrappers.Prelude.{os_error, key_error, Exec, ◌>>=◌, ◌>>◌, ◌||◌}
use ec2_wrappers.Prelude.{nat_eq, string_eq, ◌==◌, if◌then◌else◌}
use ec2_wrappers.Prelude.Text.{replace}
use ec2_wrappers.Prelude.Dict.{Dict, lookup}

-- What a process is asked for: its environment, and the password entry of its real user id.
pub record Login : Type 0 where
  pub environ : Dict String String
  pub pw_name : String
  pub pw_dir : String

abbrev fake_mode : Bool
fake_mode = false

pub real_username : Login → Result String
real_username l =
    if fake_mode
    then elim (lookup "REAL_USERNAME" l.environ) [
      | some name ↦ ok name
      | none ↦ raised (key_error "REAL_USERNAME")
    ]
    else ok l.pw_name

pub home : Login → String
home l = elim (lookup "FAKE_HOMEDIR" l.environ) [
  | some dir ↦ if fake_mode then dir else l.pw_dir
  | none ↦ l.pw_dir
]

-- The text of the log file after the call. `now` is `datetime.datetime.now().isoformat()`.
pub audit_log : String → Login → String → String → Result String
unfolding real_username replace
audit_log now l message log = elim (real_username l) [
  | ok user ↦
      ok (log <> (now <> (": " <> (user <> (": " <> (replace "\n" "\\n" message <> "\n"))))))
  | raised e ↦ raised e
]

pub data OpenMode : Type 0 where
  -- O_WRONLY | O_TRUNC | O_CREAT
  overwrite : OpenMode
  -- O_WRONLY | O_TRUNC | O_EXCL | O_CREAT
  exclusive : OpenMode

-- The real and the effective user id of the process.
pub record Ids : Type 0 where
  pub real : ℕ
  pub effective : ℕ

-- The kernel's calls: `setreuid`, and `open` (mode 0600) and `mkdir` under an effective user id.
pub record Kernel : Type 1 where
  pub Files : Type 0
  pub setreuid : ℕ → ℕ → Ids → Result (Unit {0}) × Ids
  pub open_file : OpenMode → ℕ → String → Files → Result ℕ × Files
  pub make_dir : ℕ → String → Files → Result (Unit {0}) × Files
  -- `print` to the standard output, which may be closed
  pub write_line : String → Files → Result (Unit {0}) × Files

-- setreuid(2): a process may exchange its real and its effective user id.
pub record IsLawful (K : Kernel) : Type 0 where
  pub setreuid_swap :
      (ids : Ids)
      → K.setreuid ids.effective ids.real ids
        ≡ (ok tt, record { real = ids.effective; effective = ids.real })

-- `try: body finally: last`
abbrev pub finally : {S A : Type 0} → Exec S A → Exec S (Unit {0}) → Exec S A
finally body last s =
    let (r, t) = body s in
    let (q, u) = last t in elim q [ ok _ ↦ (r, u) | raised e ↦ (raised e, u) ]

module _ (K : Kernel) where
  abbrev pub Process : Type 0
  Process = record { ids : Ids; files : K.Files }

  abbrev setreuid : ℕ → ℕ → Exec Process (Unit {0})
  setreuid r e p =
      let (q, ids') = K.setreuid r e p.ids in (q, record { ids = ids'; files = p.files })

  abbrev print_line : String → Exec Process (Unit {0})
  print_line line p =
      let (q, files') = K.write_line line p.files in (q, record { ids = p.ids; files = files' })

  -- The inner `try`, where -1 stands for a failed call: `none`.
  abbrev try_open : OpenMode → String → Exec Process (Option ℕ)
  try_open mode the_file p =
      let (r, files') = K.open_file mode p.ids.effective the_file p.files in
      let p' : Process = record { ids = p.ids; files = files' } in
      elim r [
        | ok fd ↦ (ok (some fd), p')
        | raised e ↦ (elim e [ os_error n ↦ ok none | other ↦ raised other ], p')
      ]

  abbrev pub writing : String → Bool → String
  writing the_file may_overwrite =
      "Writing "
      <> (the_file
          <> (if may_overwrite then " (possibly overwriting)..." else " (if it doesn't exist)..."))

  -- The line is printed with the ids exchanged, outside the `try`.
  pub safe_open_write : String → Bool → Exec Process (Option ℕ)
  safe_open_write the_file may_overwrite p =
      let real_uid = p.ids.real in
      let effective_uid = p.ids.effective in
      (setreuid effective_uid real_uid
          >> print_line (writing the_file may_overwrite)
          >> finally (try_open (if may_overwrite then overwrite else exclusive) the_file)
              (setreuid real_uid effective_uid))
        p

  -- The inner `try`: EEXIST is 17 and EISDIR is 21.
  abbrev try_mkdir : String → Exec Process (Unit {0})
  try_mkdir the_dir p =
      let (r, files') = K.make_dir p.ids.effective the_dir p.files in
      let p' : Process = record { ids = p.ids; files = files' } in
      elim r [
        | ok _ ↦ (ok tt, p')
        | raised e ↦ (
          elim e [
            | os_error n ↦ if (n == 21) || (n == 17) then ok tt else raised (os_error n)
            | other ↦ raised other
          ],
          p',
        )
      ]

  pub safe_make_dir : String → Exec Process (Unit {0})
  safe_make_dir the_dir p =
      let real_uid = p.ids.real in
      let effective_uid = p.ids.effective in
      (print_line ("Creating directory " <> (the_dir <> " (if it doesn't exist)..."))
          >> setreuid effective_uid real_uid
          >> finally (try_mkdir the_dir) (setreuid real_uid effective_uid))
        p
