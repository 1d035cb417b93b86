-- ===== src/Audit/Privileges.antt =====
-- Whose rights audit.py uses to write a file, and which ids it leaves.
use ec2_wrappers.Prelude.{ℕ, Bool, ◌≡◌, String, Option, none, some, Result, ok}
use ec2_wrappers.Prelude.{raised, os_error, arith, nat_eq, if◌then◌else◌}
use ec2_wrappers.Prelude.{Result-cases, inl, inr}
use ec2_wrappers.Audit.{
  Kernel, IsLawful, Ids, OpenMode, overwrite, exclusive, Process, writing, safe_open_write,
}

-- What `safe_open_write` makes of the kernel's answer: a failed call is `None`.
abbrev pub handle : Result ℕ → Result (Option ℕ)
handle (ok fd) = ok (some fd)
handle (raised (os_error n)) = ok none
handle (raised e) = raised e

module _ (K : Kernel) (L : IsLawful K) where
  -- What `safe_open_write` leaves, by what printing its line gives.
  abbrev pub opened :
      Result (Unit {0}) × K.Files → OpenMode → String → Ids → Result (Option ℕ) × Process K
  opened (raised e, files) mode the_file ids = (
    raised e,
    record { ids = record { real = ids.effective; effective = ids.real }; files = files },
  )
  opened (ok _, files) mode the_file ids =
      let (r, files') = K.open_file mode ids.real the_file files in
      (handle r, record { ids = ids; files = files' })

  -- Once its line is printed, `safe_open_write` opens the file with the rights of the real user, refuses
  -- an existing file unless it may overwrite, and returns `None` exactly for an `OSError`; any other
  -- exception of the call passes through, and the process has the ids that it had before. Where the
  -- printing raises, no file is opened, and the process is left with its ids exchanged.
  pub safe_open_write_lem :
      (the_file : String) (may_overwrite : Bool) (p : Process K)
      → safe_open_write K the_file may_overwrite p
        ≡ opened
            (K.write_line (writing K the_file may_overwrite) p.files)
            (if may_overwrite then overwrite else exclusive)
            the_file
            p.ids
  unfolding safe_open_write
  safe_open_write_lem the_file may_overwrite p =
      elim (Result-cases (K.write_line (writing K the_file may_overwrite) p.files).0) [
        | inl (a, h) ↦ ground (
          arith,
          L.setreuid_swap p.ids,
          L.setreuid_swap (record { real = p.ids.effective; effective = p.ids.real }),
        )
        | inr (e, h) ↦ ground (arith, L.setreuid_swap p.ids)
      ]
