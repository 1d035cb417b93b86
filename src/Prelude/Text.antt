-- ===== src/Prelude/Text.antt =====
-- Python's methods on `str`, by recursion on the text.
use Prim.Native.Char.{Char}
use Prim.Native.String.{String}
use mathlib.Core.Path.{◌≡◌, refl, ap}
use mathlib.Core.Bool.{Bool, true, false, ◌||◌, ◌&&◌}
use native.Mathlib.Omega.{arith}
use mathlib.Core.List.{List, [], ◌∷◌}
use ec2_wrappers.Prelude.Branch.{if◌then◌else◌, ◌==◌, char_eq, string_eq}

-- Texts are appended by recursion, so that a literal in front computes whatever follows it.
infixr 65 ◌<>◌
abbrev pub ◌<>◌ : String → String → String
String.[] <> t = t
(String.◌∷◌ c s) <> t = String.◌∷◌ c (s <> t)

pub <>_assoc : (s t u : String) → (s <> t) <> u ≡ s <> (t <> u)
<>_assoc String.[] t u = refl
<>_assoc (String.◌∷◌ c s) t u = ap (String.◌∷◌ c) (<>_assoc s t u)

pub <>_nil : (s : String) → s <> "" ≡ s
<>_nil String.[] = refl
<>_nil (String.◌∷◌ c s) = ap (String.◌∷◌ c) (<>_nil s)

-- A text of one character.
abbrev pub char : Char → String
char c = String.◌∷◌ c String.[]

-- `s.replace(c, r)` for a pattern `c` of one character
unfoldable pub replace : Char → String → String → String
replace c r String.[] = ""
replace c r (String.◌∷◌ d s) = (if c == d then r else char d) <> replace c r s

-- `s.find(c) != -1`
unfoldable pub has_char : Char → String → Bool
has_char c String.[] = false
has_char c (String.◌∷◌ d s) = (c == d) || has_char c s

-- The first piece grows by a character.
abbrev pub on_head : Char → List String → List String
on_head c [] = char c ∷ []
on_head c (p ∷ ps) = String.◌∷◌ c p ∷ ps

-- `s.split(c)` for a separator of one character
unfoldable pub split : Char → String → List String
split c String.[] = "" ∷ []
split c (String.◌∷◌ d s) = let rest = split c s in if c == d then "" ∷ rest else on_head d rest

-- `sep.join(xs)`
unfoldable pub join : String → List String → String
join sep [] = ""
join sep (x ∷ []) = x
join sep (x ∷ y ∷ ys) = x <> (sep <> join sep (y ∷ ys))

-- `s.startswith(t)`
unfoldable pub starts_with : String → String → Bool
starts_with s String.[] = true
starts_with String.[] (String.◌∷◌ d t) = false
starts_with (String.◌∷◌ c s) (String.◌∷◌ d t) = (c == d) && starts_with s t

-- `s.endswith(t)`
unfoldable pub ends_with : String → String → Bool
ends_with String.[] t = t == ""
ends_with (String.◌∷◌ c s) t = (t == String.◌∷◌ c s) || ends_with s t

-- `s[:-1]`
unfoldable pub drop_last : String → String
drop_last String.[] = ""
drop_last (String.◌∷◌ c String.[]) = ""
drop_last (String.◌∷◌ c (String.◌∷◌ d s)) = String.◌∷◌ c (drop_last (String.◌∷◌ d s))

-- every character of the text
unfoldable pub all_chars : (Char → Bool) → String → Bool
all_chars p String.[] = true
all_chars p (String.◌∷◌ c s) = p c && all_chars p s

pub has_char-append :
    (c : Char) (s t : String) → has_char c (s <> t) ≡ (has_char c s || has_char c t)
unfolding has_char
has_char-append c String.[] t = refl
has_char-append c (String.◌∷◌ d s) t = ground (arith, has_char-append c s t)

-- A text with no separator in it is one piece.
pub split-none : (c : Char) (s : String) → has_char c s ≡ false → split c s ≡ s ∷ []
unfolding split has_char
split-none c String.[] h = refl
split-none c (String.◌∷◌ d s) h = ground (arith, split-none c s)

-- Up to the first separator there is one piece.
pub split-append :
    (c : Char) (s rest : String)
    → has_char c s ≡ false
    → split c (s <> (char c <> rest)) ≡ s ∷ split c rest
unfolding split has_char
split-append c String.[] rest h = ground arith
split-append c (String.◌∷◌ d s) rest h = ground (arith, split-append c s rest)

pub starts_with-append : (s u t : String) → starts_with s t ≡ true → starts_with (s <> u) t ≡ true
unfolding starts_with
starts_with-append s u String.[] h = ground arith
starts_with-append String.[] u (String.◌∷◌ d t) h = cc
starts_with-append (String.◌∷◌ c s) u (String.◌∷◌ d t) h = ground (arith, starts_with-append s u t)

pub starts_with_self : (s t : String) → starts_with (s <> t) s ≡ true
unfolding starts_with
starts_with_self String.[] t = refl
starts_with_self (String.◌∷◌ c s) t = ground (arith, starts_with_self s t)

-- What follows a prefix.
pub starts_with_rest : (s t : String) → starts_with s t ≡ true → (rest : String) × (s ≡ t <> rest)
unfolding starts_with
starts_with_rest s String.[] h = (s, refl)
starts_with_rest String.[] (String.◌∷◌ d t) h = absurd (cc h)
starts_with_rest (String.◌∷◌ c s) (String.◌∷◌ d t) h =
    let (rest, e) = starts_with_rest s t (ground arith) in (rest, ground arith)

-- `os.path.join(a, b)`
unfoldable pub join_path : String → String → String
join_path a b =
    if starts_with b "/" then b else if a == "" || ends_with a "/" then a <> b else a <> ("/" <> b)
