-- ===== src/Audit/Tests.antt =====
-- Runs of audit.py over a small kernel, and its theorems there.
use ec2_wrappers.Prelude.{◌≡◌, refl, true, false, String, ℕ, none, some, [], ◌∷◌, ok}
use ec2_wrappers.Prelude.{raised, os_error, ◌++◌, char_eq, nat_eq, string_eq, ◌==◌, if◌then◌else◌}
use ec2_wrappers.Prelude.Text.{has_char, split}
use ec2_wrappers.Audit.{
  Login, audit_log, Kernel, IsLawful, overwrite, exclusive, Process, safe_open_write,
}
use ec2_wrappers.Audit.Log.{log_of, entry, split-audit_log}
use ec2_wrappers.Audit.Privileges.{safe_open_write_lem}

-- The one file belongs to user 7, and stands there if `files` is not 0.
abbrev small_kernel : Kernel
small_kernel = record {
  Files = ℕ;
  setreuid = λ r e ids. (ok tt, record { real = r; effective = e });
  open_file = λ mode user path files. elim mode [
    | overwrite ↦ if user == 7 then (ok 3, 1) else (raised (os_error 13), files)
    | exclusive ↦
        if files == 0
        then if user == 7 then (ok 3, 1) else (raised (os_error 13), files)
        else (raised (os_error 17), files)
  ];
  make_dir = λ user path files.
      if files == 0
      then if user == 7 then (ok tt, 1) else (raised (os_error 13), files)
      else (raised (os_error 17), files);
  write_line = λ line files. (ok tt, files);
}

small_kernel-IsLawful : IsLawful small_kernel
small_kernel-IsLawful = record { setreuid_swap = λ ids. refl }

abbrev process : ℕ → Process small_kernel
process files = record { ids = record { real = 7; effective = 1 }; files = files }

writes_own_file : safe_open_write small_kernel "f" true (process 1) ≡ (ok (some 3), process 1)
unfolding safe_open_write nat_eq
writes_own_file = refl

keeps_existing_file : safe_open_write small_kernel "f" false (process 1) ≡ (ok none, process 1)
unfolding safe_open_write nat_eq
keeps_existing_file = refl

safe_open_write_lem_example :
    safe_open_write small_kernel "f" false (process 0) ≡ (ok (some 3), process 1)
unfolding nat_eq
safe_open_write_lem_example =
    safe_open_write_lem small_kernel small_kernel-IsLawful "f" false (process 0)

abbrev login : Login
login = record { environ = []; pw_name = "cs61c-ab"; pw_dir = "/home/ab" }

split-audit_log_example :
    (log : String) × (audit_log "now" login "a\nb" (log_of ("first" ∷ [])) ≡ ok log)
    × (split "\n" log ≡ ("first" ∷ []) ++ (entry "now" "cs61c-ab" "a\nb" ∷ "" ∷ []))
unfolding has_char char_eq
split-audit_log_example = split-audit_log "now" "a\nb" login ("first" ∷ []) (refl, tt) refl refl
