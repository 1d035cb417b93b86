-- ===== src/Audit/Log.antt =====
-- The audit log as a reader sees it: one line for each entry.
use ec2_wrappers.Prelude.{false, ◌≡◌, refl, ap, ◌∙◌, String, ◌<>◌, Char, List}
use ec2_wrappers.Prelude.{
  [], ◌∷◌, ◌++◌, ok, arith, All, All-append, ◌||◌, ==_of_eq, ==_of_ne, char_eq,
}
use ec2_wrappers.Prelude.Text.{replace, has_char, split, <>_assoc}
use mathlib.Core.List.{append_assoc}
use ec2_wrappers.Audit.{Login, audit_log}

-- A log that holds the given entries.
pub log_of : List String → String
log_of [] = ""
log_of (e ∷ es) = e <> ("\n" <> log_of es)

-- A text that stands on one line.
abbrev pub IsLine : String → Type 0
IsLine s = has_char "\n" s ≡ false

split-line : (e rest : String) → IsLine e → split "\n" (e <> ("\n" <> rest)) ≡ e ∷ split "\n" rest
unfolding split has_char char_eq
split-line String.[] rest h = refl
split-line (String.◌∷◌ c e) rest h = ground (arith, split-line e rest)

split-log_of : (es : List String) → All IsLine es → split "\n" (log_of es) ≡ es ++ ("" ∷ [])
unfolding log_of split
split-log_of [] h = refl
split-log_of (e ∷ es) (h, hs) = split-line e (log_of es) h ∙ ap (λ l. e ∷ l) (split-log_of es hs)

has_char-append : (c : Char) (s t : String) → has_char c (s <> t) ≡ (has_char c s || has_char c t)
unfolding has_char
has_char-append c String.[] t = refl
has_char-append c (String.◌∷◌ d s) t = ground (arith, has_char-append c s t)

-- No line break is left of a message.
IsLine-replace : (message : String) → IsLine (replace "\n" "\\n" message)
unfolding replace has_char char_eq
IsLine-replace String.[] = refl
IsLine-replace (String.◌∷◌ c s) = elim (char_eq.dec "\n" c) [
  | yes p ↦ rw (==_of_eq _ _ p) (IsLine-replace s)
  | no n ↦ rw (==_of_ne _ _ n) (rw (==_of_ne _ _ n) (IsLine-replace s))
]

log_of-append : (es : List String) (e : String) → log_of es <> (e <> "\n") ≡ log_of (es ++ (e ∷ []))
unfolding log_of
log_of-append [] e = refl
log_of-append (x ∷ es) e = <>_assoc x _ _ ∙ ap (λ t. x <> ("\n" <> t)) (log_of-append es e)

-- The entry that a call adds.
pub entry : String → String → String → String
unfolding replace
entry now user message = now <> (": " <> (user <> (": " <> replace "\n" "\\n" message)))

IsLine-entry :
    (now user message : String) → IsLine now → IsLine user → IsLine (entry now user message)
unfolding entry has_char char_eq
IsLine-entry now user message hn hu =
    rw (has_char-append "\n" now _, hn)
      (rw (has_char-append "\n" user _, hu) (IsLine-replace message))

-- Whatever the message holds, `audit_log` adds exactly one line to the log, which begins with the
-- time and the name of the real user: a caller cannot forge a second entry. The earlier entries, the
-- time and the name are lines themselves.
pub split-audit_log :
    (now message : String) (l : Login) (es : List String)
    → All IsLine es
    → IsLine now
    → IsLine l.pw_name
    → (log : String) × (audit_log now l message (log_of es) ≡ ok log)
      × (split "\n" log ≡ es ++ (entry now l.pw_name message ∷ "" ∷ []))
unfolding audit_log entry
split-audit_log now message l es hs hn hu = (
  log_of es <> (entry now l.pw_name message <> "\n"),
  ap (λ t. ok (log_of es <> t)) (simp <>_assoc),
  ap (split "\n") (log_of-append es _)
      ∙ split-log_of (es ++ (entry now l.pw_name message ∷ []))
          (All-append IsLine es _ hs (IsLine-entry now l.pw_name message hn hu, tt))
      ∙ append_assoc es _ _,
)
