-- ===== src/Prelude/Number.antt =====
-- Python's `str` and `int` between numbers and texts, and the case of letters.
use Prim.Native.Nat.{ℕ, zero, suc, ◌+◌, ◌*◌, ◌/◌, ◌%◌}
use Prim.Native.Char.{Char}
use Prim.Native.String.{String}
use mathlib.Core.Option.{Option, none, some}
use mathlib.Core.List.{[], ◌∷◌}
use ec2_wrappers.Prelude.Branch.{if◌then◌else◌, ltb, char_eq}
use ec2_wrappers.Prelude.Text.{◌<>◌, char}
use ec2_wrappers.Prelude.Dict.{Dict, lookup}

-- The digits with their values.
abbrev pub digits : Dict Char ℕ
digits =
    ("0", 0)
    ∷ ("1", 1)
    ∷ ("2", 2)
    ∷ ("3", 3)
    ∷ ("4", 4)
    ∷ ("5", 5)
    ∷ ("6", 6)
    ∷ ("7", 7)
    ∷ ("8", 8)
    ∷ ("9", 9)
    ∷ []

abbrev digit_in : Dict Char ℕ → ℕ → String
digit_in [] n = ""
digit_in ((c, m) ∷ rest) zero = char c
digit_in ((c, m) ∷ rest) (suc n) = digit_in rest n

-- The digits of a number, on fuel; the number itself is fuel enough.
decimal_loop : ℕ → ℕ → String
decimal_loop zero n = digit_in digits (n % 10)
decimal_loop (suc fuel) n =
    let rest = decimal_loop fuel (n / 10) in
    if ltb n 10 then digit_in digits n else rest <> digit_in digits (n % 10)

-- `str(n)`
unfoldable pub decimal : ℕ → String
unfolding decimal_loop
decimal n = decimal_loop n n

to_int_loop : String → ℕ → Option ℕ
to_int_loop String.[] n = some n
to_int_loop (String.◌∷◌ c s) n = elim (lookup c digits) [
  | none ↦ none
  | some d ↦ to_int_loop s (n * 10 + d)
]

-- `int(s)`, for a text without sign or spaces; `none` is a ValueError.
unfoldable pub to_int : String → Option ℕ
unfolding to_int_loop
to_int String.[] = none
to_int (String.◌∷◌ c s) = to_int_loop (String.◌∷◌ c s) 0

-- The small letters of ASCII with their capitals.
abbrev letters : Dict Char Char
letters =
    ("a", "A")
    ∷ ("b", "B")
    ∷ ("c", "C")
    ∷ ("d", "D")
    ∷ ("e", "E")
    ∷ ("f", "F")
    ∷ ("g", "G")
    ∷ ("h", "H")
    ∷ ("i", "I")
    ∷ ("j", "J")
    ∷ ("k", "K")
    ∷ ("l", "L")
    ∷ ("m", "M")
    ∷ ("n", "N")
    ∷ ("o", "O")
    ∷ ("p", "P")
    ∷ ("q", "Q")
    ∷ ("r", "R")
    ∷ ("s", "S")
    ∷ ("t", "T")
    ∷ ("u", "U")
    ∷ ("v", "V")
    ∷ ("w", "W")
    ∷ ("x", "X")
    ∷ ("y", "Y")
    ∷ ("z", "Z")
    ∷ []

abbrev swapped : Dict Char Char → Dict Char Char
swapped [] = []
swapped ((a, b) ∷ rest) = (b, a) ∷ swapped rest

abbrev or_same : Option Char → Char → Char
or_same none c = c
or_same (some d) c = d

-- `s.upper()` and `s.lower()`
unfoldable pub upper : String → String
upper String.[] = ""
upper (String.◌∷◌ c s) = String.◌∷◌ (or_same (lookup c letters) c) (upper s)

unfoldable pub lower : String → String
lower String.[] = ""
lower (String.◌∷◌ c s) = String.◌∷◌ (or_same (lookup c (swapped letters)) c) (lower s)
