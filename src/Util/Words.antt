-- ===== src/Util/Words.antt =====
-- How bash reads a command line of quoted words, and what it makes of a text that `bash_quote`
-- (hadoop/cloud/util.py) wrote.
use ec2_wrappers.Prelude.{◌≡◌, ◌≢◌, refl, ap, sym, ◌∙◌, String, ◌<>◌, Char, Bool, true, false, ◌||◌}
use ec2_wrappers.Prelude.{
  Option, none, some, List, [], ◌∷◌, arith, ◌==◌, ==_of_ne, char_eq, if◌then◌else◌,
}
use mathlib.Core.Path.{subst}
use ec2_wrappers.Prelude.Dict.{keys, values}
use ec2_wrappers.Prelude.Text.{has_char, replace, on_head, all_chars, join, <>_assoc, <>_nil}
use ec2_wrappers.Util.{bash_quote, xstr}

-- How the reader takes the next character.
pub data Mode : Type 0 where
  plain quoted escaped : Mode

-- A character that means itself to bash wherever it stands in a word: a letter, a digit or `_`.
unfoldable pub is_plain : Char → Bool
is_plain c = has_char c "abcdefghijklmnopqrstuvwxyzABCDEFGHIJKLMNOPQRSTUVWXYZ0123456789_"

-- One more character of the first word, where there is a reading.
abbrev on_first : Char → Option (List String) → Option (List String)
on_first c none = none
on_first c (some ws) = some (on_head c ws)

-- One more word in front.
abbrev new_word : String → Option (List String) → Option (List String)
new_word w none = none
new_word w (some ws) = some (w ∷ ws)

-- The words of a command line in which one space stands between two words, as far as they are written
-- with letters, digits, `_`, `=`, quotations in single quotes, and `\'`. `none` stands for any other
-- text: the reader does not say what bash makes of `$`, `;`, `#`, a line end and the like outside
-- quotes, nor of a quote that is left open. Within single quotes every character means itself.
unfoldable pub words : Mode → String → Option (List String)
words plain String.[] = some ("" ∷ [])
words quoted String.[] = none
words escaped String.[] = none
words plain (String.◌∷◌ c s) =
    if "'" == c
    then words quoted s
    else if "\\" == c
    then words escaped s
    else if " " == c
    then new_word "" (words plain s)
    else if is_plain c || "=" == c
    then on_first c (words plain s)
    else none
words quoted (String.◌∷◌ c s) = if "'" == c then words plain s else on_first c (words quoted s)
words escaped (String.◌∷◌ c s) = if "'" == c then on_first c (words plain s) else none

-- A text in front of the first word.
abbrev pub on_front : String → Option (List String) → Option (List String)
on_front String.[] ws = ws
on_front (String.◌∷◌ c s) ws = on_first c (on_front s ws)

words-replace :
    (t rest : String)
    → words quoted (replace "'" "'\\''" t <> ("'" <> rest)) ≡ on_front t (words plain rest)
unfolding words replace char_eq
words-replace String.[] rest = refl
words-replace (String.◌∷◌ c t) rest = elim (char_eq.dec "'" c) [
  | yes p ↦
      subst
        (λ d.
          words quoted (replace "'" "'\\''" (String.◌∷◌ d t) <> ("'" <> rest))
          ≡ on_first d (on_front t (words plain rest)))
        p (ap (on_first "'") (words-replace t rest))
  | no n ↦ rw (==_of_ne _ _ n) (rw (==_of_ne _ _ n) (ap (on_first c) (words-replace t rest)))
]

-- bash takes `q`, wherever it stands in a word, for the text `w`.
abbrev pub Reads : String → String → Type 0
Reads q w = (rest : String) → words plain (q <> rest) ≡ on_front w (words plain rest)

on_front-append :
    (s t : String) (ws : Option (List String)) → on_front (s <> t) ws ≡ on_front s (on_front t ws)
on_front-append String.[] t ws = refl
on_front-append (String.◌∷◌ c s) t ws = ap (on_first c) (on_front-append s t ws)

pub Reads-append : (q w q' w' : String) → Reads q w → Reads q' w' → Reads (q <> q') (w <> w')
Reads-append q w q' w' h h' rest = rw (<>_assoc, h, h', on_front-append)

-- Whatever a value holds, bash reads its quotation as that value, and `None` as nothing.
pub Reads-bash_quote : (value : Option String) → Reads (bash_quote value) (xstr value)
unfolding bash_quote xstr words char_eq
Reads-bash_quote none rest = refl
Reads-bash_quote (some t) rest =
    ap (words quoted) (<>_assoc (replace "'" "'\\''" t) "'" rest) ∙ words-replace t rest

pub Reads-value : (t : String) → Reads (bash_quote (some t)) t
unfolding xstr
Reads-value t = Reads-bash_quote (some t)

-- A character that is plain is none that is not.
plain-ne : (q c : Char) → is_plain q ≡ false → is_plain c ≡ true → (q == c) ≡ false
plain-ne q c h k =
    ==_of_ne q c (λ p. let e : (is_plain q ≡ is_plain c) = ap is_plain p in cc (e, h, k))

quote_special : is_plain "'" ≡ false
unfolding is_plain has_char char_eq
quote_special = refl

backslash_special : is_plain "\\" ≡ false
unfolding is_plain has_char char_eq
backslash_special = refl

space_special : is_plain " " ≡ false
unfolding is_plain has_char char_eq
space_special = refl

pub Reads-plain : (s : String) → all_chars is_plain s ≡ true → Reads s s
unfolding all_chars words
Reads-plain String.[] h rest = refl
Reads-plain (String.◌∷◌ c s) h rest =
    let k : (is_plain c ≡ true) = ground arith in
    rw (plain-ne "'" c quote_special k, plain-ne "\\" c backslash_special k)
      (rw (plain-ne " " c space_special k, k) (ap (on_first c) (Reads-plain s (ground arith) rest)))

-- Two lists of texts of which bash reads each as its partner.
abbrev pub AllRead : List (String × String) → Type 0
AllRead [] = Unit
AllRead ((q, w) ∷ ps) = Reads q w × AllRead ps

grown :
    (c : Char) (w : String) (ws : Option (List String))
    → on_first c (new_word w ws) ≡ new_word (String.◌∷◌ c w) ws
grown c w none = refl
grown c w (some ws) = refl

on_front-word :
    (w : String) (ws : Option (List String)) → on_front w (new_word "" ws) ≡ new_word w ws
on_front-word String.[] ws = refl
on_front-word (String.◌∷◌ c w) ws = rw (on_front-word w ws) (grown c w ws)

pub words-join :
    (ps : List (String × String))
    → ps ≢ []
    → AllRead ps
    → words plain (join " " (keys ps)) ≡ some (values ps)
unfolding join words char_eq
words-join [] nonempty hs = absurd (nonempty refl)
words-join ((q, w) ∷ []) _ (h, _) =
    ap (words plain) (sym (<>_nil q)) ∙ h "" ∙ on_front-word w (some [])
words-join ((q, w) ∷ (q', w') ∷ ps) _ (h, hs) =
    h (" " <> join " " (q' ∷ keys ps))
    ∙ on_front-word w _
    ∙ ap (new_word w) (words-join ((q', w') ∷ ps) (λ e. cc) hs)
