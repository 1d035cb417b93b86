-- ===== src/Util/Quoting.antt =====
-- What bash reads in the text that `build_env_string` (hadoop/cloud/util.py) returns.
use ec2_wrappers.Prelude.{◌≡◌, ◌≢◌, refl, ap, sym, ◌∙◌, String, ◌<>◌, Char, true, false, Option}
use ec2_wrappers.Prelude.{some, List, [], ◌∷◌, ◌++◌, map, arith, All, ok, char_eq}
use ec2_wrappers.Prelude.Dict.{keys, values, keys-append, values-append, keys-map, values-map}
use ec2_wrappers.Prelude.Text.{all_chars, join, char, has_char, split, drop_last, <>_assoc, <>_nil}
use ec2_wrappers.Util.{bash_quote, bash_quote_env, build_env_string, env_loop, pair_loop, xstr}
use ec2_wrappers.Util.Words.{
  plain, words, Reads, AllRead, Reads-append, Reads-bash_quote, Reads-value, Reads-plain, is_plain,
  words-join,
}

-- Each text with a space behind it, as the loops of `build_env_string` write them.
abbrev spaced : List String → String
spaced [] = ""
spaced (q ∷ qs) = q <> (" " <> spaced qs)

spaced-append : (xs ys : List String) → spaced (xs ++ ys) ≡ spaced xs <> spaced ys
spaced-append [] ys = refl
spaced-append (x ∷ xs) ys = rw (spaced-append xs ys, <>_assoc)

drop_last-append : (s : String) (c : Char) → drop_last (s <> char c) ≡ s
unfolding drop_last
drop_last-append String.[] c = refl
drop_last-append (String.◌∷◌ d String.[]) c = refl
drop_last-append (String.◌∷◌ d (String.◌∷◌ e s)) c =
    ap (String.◌∷◌ d) (drop_last-append (String.◌∷◌ e s) c)

spaced-join : (q : String) (qs : List String) → spaced (q ∷ qs) ≡ join " " (q ∷ qs) <> " "
unfolding join
spaced-join q [] = refl
spaced-join q (q' ∷ qs) = rw (spaced-join q' qs, <>_assoc)

drop_last-spaced : (qs : List String) → drop_last (spaced qs) ≡ join " " qs
unfolding drop_last join
drop_last-spaced [] = refl
drop_last-spaced (q ∷ qs) = rw (spaced-join q qs) (drop_last-append _ " ")

-- `var=value` as `bash_quote_env` writes it and as it is read.
abbrev pub assign : String × String → String
assign (var, value) = var <> ("=" <> value)

abbrev quoted_assign : String × String → String
quoted_assign (var, value) = var <> ("=" <> bash_quote (some value))

-- An `--env` argument that the program takes: `var=value` with a plain name, and no second `=`.
abbrev pub IsSetting : String × String → Type 0
IsSetting (var, value) =
    (all_chars is_plain var ≡ true) × (has_char "=" var ≡ false) × (has_char "=" value ≡ false)

split-none : (s : String) → has_char "=" s ≡ false → split "=" s ≡ s ∷ []
unfolding split has_char
split-none String.[] h = refl
split-none (String.◌∷◌ c s) h = ground (arith, split-none s)

split-assign :
    (var value : String)
    → has_char "=" var ≡ false
    → has_char "=" value ≡ false
    → split "=" (assign (var, value)) ≡ var ∷ value ∷ []
unfolding split has_char char_eq
split-assign String.[] value h k = rw (split-none value k)
split-assign (String.◌∷◌ c var) value h k = ground (arith, split-assign var value)

has_char-assign : (var value : String) → has_char "=" (assign (var, value)) ≡ true
unfolding has_char char_eq
has_char-assign String.[] value = refl
has_char-assign (String.◌∷◌ c var) value = ground (arith, has_char-assign var value)

bash_quote_env-assign :
    (e : String × String) → IsSetting e → bash_quote_env (assign e) ≡ ok (quoted_assign e)
unfolding bash_quote_env
bash_quote_env-assign (var, value) (_, h, k) =
    rw (has_char-assign var value, split-assign var value h k)

env_step : (env q rest : String) → (env <> (q <> " ")) <> rest ≡ env <> (q <> (" " <> rest))
env_step env q rest = rw (<>_assoc, <>_assoc)

env_loop-assign :
    (es : List (String × String)) (env : String)
    → All IsSetting es
    → env_loop (map assign es) env ≡ ok (env <> spaced (map quoted_assign es))
unfolding env_loop
env_loop-assign [] env h = rw (<>_nil env)
env_loop-assign (e ∷ es) env (h, hs) =
    rw (bash_quote_env-assign e h, env_loop)
      (env_loop-assign es _ hs ∙ ap ok (env_step env (quoted_assign e) _))

abbrev quoted_pair : String × Option String → String
quoted_pair (key, val) = key <> ("=" <> bash_quote val)

-- `key=value` as bash reads it, where `None` leaves the value empty.
abbrev pub assign_pair : String × Option String → String
assign_pair (key, val) = key <> ("=" <> xstr val)

pair_loop-spaced :
    (pairs : List (String × Option String)) (env : String)
    → pair_loop pairs env ≡ env <> spaced (map quoted_pair pairs)
unfolding pair_loop
pair_loop-spaced [] env = rw (<>_nil env)
pair_loop-spaced ((key, val) ∷ pairs) env =
    rw (pair_loop-spaced pairs (env <> (key <> ("=" <> (bash_quote val <> " "))))) (simp <>_assoc)

-- `build_env_string`, as the join of what it writes for each entry.
build_env_string_lem :
    (es : List (String × String)) (pairs : List (String × Option String))
    → All IsSetting es
    → build_env_string (map assign es) pairs
      ≡ ok (join " " (map quoted_assign es ++ map quoted_pair pairs))
unfolding build_env_string
build_env_string_lem es pairs h =
    rw (env_loop-assign es "" h, build_env_string)
      (ap ok
        (ap drop_last (pair_loop-spaced pairs _ ∙ sym (spaced-append _ _)) ∙ drop_last-spaced _))

-- A key that bash takes as it stands.
abbrev pub IsPlainKey : String × Option String → Type 0
IsPlainKey (key, val) = all_chars is_plain key ≡ true

setting_reads : List (String × String) → List (String × String)
setting_reads = map (λ e. (quoted_assign e, assign e))

pair_reads : List (String × Option String) → List (String × String)
pair_reads = map (λ p. (quoted_pair p, assign_pair p))

Reads-equals : Reads "=" "="
unfolding words char_eq is_plain has_char
Reads-equals rest = ground arith

AllRead-pairs :
    (pairs : List (String × Option String)) → All IsPlainKey pairs → AllRead (pair_reads pairs)
unfolding pair_reads
AllRead-pairs [] h = tt
AllRead-pairs ((key, val) ∷ pairs) (h, hs) = (
  Reads-append key key _ _ (Reads-plain key h)
      (Reads-append "=" "=" (bash_quote val) (xstr val) Reads-equals (Reads-bash_quote val)),
  AllRead-pairs pairs hs,
)

AllRead-settings :
    (es : List (String × String)) (ps : List (String × String))
    → All IsSetting es
    → AllRead ps
    → AllRead (setting_reads es ++ ps)
unfolding setting_reads
AllRead-settings [] ps h hp = hp
AllRead-settings ((var, value) ∷ es) ps (h, hs) hp = (
  Reads-append var var _ _ (Reads-plain var h.0)
      (Reads-append "=" "=" (bash_quote (some value)) value Reads-equals (Reads-value value)),
  AllRead-settings es ps hs hp,
)

append-ne-nil {ℓ} : {A : Type ℓ} (xs : List A) (y : A) (ys : List A) → xs ++ (y ∷ ys) ≢ []
append-ne-nil [] y ys e = cc
append-ne-nil (x ∷ xs) y ys e = cc

module _ (es : List (String × String)) (pair : String × Option String)
    (pairs : List (String × Option String)) where
  reads : List (String × String)
  reads = setting_reads es ++ pair_reads (pair ∷ pairs)

  keys-reads : keys reads ≡ map quoted_assign es ++ map quoted_pair (pair ∷ pairs)
  unfolding reads setting_reads pair_reads
  keys-reads = rw (
    keys-append,
    keys-map quoted_assign assign es,
    keys-map quoted_pair assign_pair (pair ∷ pairs),
  )

  values-reads : values reads ≡ map assign es ++ map assign_pair (pair ∷ pairs)
  unfolding reads setting_reads pair_reads
  values-reads = rw (
    values-append,
    values-map quoted_assign assign es,
    values-map quoted_pair assign_pair (pair ∷ pairs),
  )

  reads-ne-nil : reads ≢ []
  unfolding reads pair_reads
  reads-ne-nil = append-ne-nil _ _ _

  words-reads :
      All IsSetting es
      → All IsPlainKey (pair ∷ pairs)
      → words plain (join " " (map quoted_assign es ++ map quoted_pair (pair ∷ pairs)))
        ≡ some (map assign es ++ map assign_pair (pair ∷ pairs))
  unfolding reads
  words-reads he hp =
      ap (λ qs. words plain (join " " qs)) (sym keys-reads)
      ∙ words-join reads reads-ne-nil (AllRead-settings es _ he (AllRead-pairs (pair ∷ pairs) hp))
      ∙ ap some values-reads

-- For `--env` settings whose names are letters, digits and `_` and which have no second `=`, and pairs
-- with such keys, at least one
-- of them, `build_env_string` returns a text that bash reads as exactly those assignments, in that
-- order, whatever characters the values hold; a value `None` is read as an empty one.
pub words-build_env_string :
    (es : List (String × String)) (pair : String × Option String)
    (pairs : List (String × Option String))
    → All IsSetting es
    → All IsPlainKey (pair ∷ pairs)
    → (env : String) × (build_env_string (map assign es) (pair ∷ pairs) ≡ ok env)
      × (words plain env ≡ some (map assign es ++ map assign_pair (pair ∷ pairs)))
words-build_env_string es pair pairs he hp = (
  join " " (map quoted_assign es ++ map quoted_pair (pair ∷ pairs)),
  build_env_string_lem es (pair ∷ pairs) he,
  words-reads es pair pairs he hp,
)

-- Settings alone raise nothing.
pub build_env_string-settings :
    (es : List (String × String))
    → All IsSetting es
    → (env : String) × (build_env_string (map assign es) [] ≡ ok env)
build_env_string-settings es h =
    (join " " (map quoted_assign es ++ []), build_env_string_lem es [] h)
