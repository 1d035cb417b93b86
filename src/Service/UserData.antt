-- ===== src/Service/UserData.antt =====
-- The data for an instance on its start (hadoop/cloud/cluster.py): a script in which texts are replaced.
use ec2_wrappers.Prelude.{ℕ, zero, suc, Bool, false, String, Char, ◌<>◌, Option, some, [], ◌∷◌}
use ec2_wrappers.Prelude.{◌≡◌, refl, ap, ◌∙◌, arith, ◌||◌, char_eq, if◌then◌else◌}
use ec2_wrappers.Prelude.Text.{starts_with, starts_with_self, has_char}
use ec2_wrappers.Prelude.Dict.{Dict}
use ec2_wrappers.Util.{xstr}

-- `s.replace("", by)`
between : String → String → String
between by String.[] = by
between by (String.◌∷◌ c s) = by <> (String.◌∷◌ c (between by s))

size : String → ℕ
size String.[] = 0
size (String.◌∷◌ c s) = suc (size s)

-- `s.replace(match, by)` for the text of `d` and `match`, with `skip` characters of a match still to
-- pass.
replaced_from : Char → String → String → ℕ → String → String
unfolding size
replaced_from d match by skip String.[] = ""
replaced_from d match by (suc skip) (String.◌∷◌ c s) = replaced_from d match by skip s
replaced_from d match by zero (String.◌∷◌ c s) =
    let found = replaced_from d match by (size match) s in
    let other = replaced_from d match by zero s in
    if starts_with (String.◌∷◌ c s) (String.◌∷◌ d match) then by <> found else String.◌∷◌ c other

-- `s.replace(match, by)`
unfoldable pub replace_text : String → String → String → String
unfolding between replaced_from
replace_text String.[] by s = between by s
replace_text (String.◌∷◌ d match) by s = replaced_from d match by zero s

-- `read`, for what the file holds.
unfoldable pub read : Dict String (Option String) → String → String
read [] contents = contents
read ((match, replacement) ∷ replacements) contents =
    read replacements (replace_text match (xstr replacement) contents)

-- The text of `d` and `match` stands somewhere in a text.
unfoldable pub occurs : Char → String → String → Bool
occurs d match String.[] = false
occurs d match (String.◌∷◌ c s) =
    starts_with (String.◌∷◌ c s) (String.◌∷◌ d match) || occurs d match s

module _ (d : Char) (match by : String) where
  replaced_from-skip :
      (t s : String) → replaced_from d match by (size t) (t <> s) ≡ replaced_from d match by zero s
  unfolding replaced_from size
  replaced_from-skip String.[] s = refl
  replaced_from-skip (String.◌∷◌ c t) s = replaced_from-skip t s

  replaced_from-before :
      (before s : String)
      → has_char d before ≡ false
      → replaced_from d match by zero (before <> s) ≡ before <> replaced_from d match by zero s
  unfolding replaced_from has_char starts_with
  replaced_from-before String.[] s h = refl
  replaced_from-before (String.◌∷◌ c before) s h = ground (arith, h, replaced_from-before before s)

  replaced_from-absent :
      (s : String) → occurs d match s ≡ false → replaced_from d match by zero s ≡ s
  unfolding replaced_from occurs
  replaced_from-absent String.[] h = refl
  replaced_from-absent (String.◌∷◌ c s) h = ground (arith, h, replaced_from-absent s)

  replaced_from-match :
      (s : String)
      → replaced_from d match by zero (String.◌∷◌ d (match <> s))
        ≡ by <> replaced_from d match by zero s
  unfolding replaced_from
  replaced_from-match s =
      rw (starts_with_self (String.◌∷◌ d match) s) (ap (λ t. by <> t) (replaced_from-skip match s))

-- In a script that holds `%ENV%` once, behind no other percent sign, the text that is given for it
-- stands in its place, and the rest of the script is as it was.
pub read-once :
    (before after env : String)
    → has_char "%" before ≡ false
    → occurs "%" "ENV%" after ≡ false
    → read (("%ENV%", some env) ∷ []) (before <> ("%ENV%" <> after)) ≡ before <> (env <> after)
unfolding read replace_text xstr
read-once before after env h k =
    replaced_from-before "%" "ENV%" env before ("%ENV%" <> after) h
    ∙ ap (λ s. before <> s)
        (replaced_from-match "%" "ENV%" env after
          ∙ ap (λ s. env <> s) (replaced_from-absent "%" "ENV%" env after k))
