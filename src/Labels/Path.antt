-- ===== src/Labels/Path.antt =====
-- utils/labels.py: the path of a project's label, and the leaf that it shares with the folder on the NAS.
pub mod Segments
use Prim.Native.Char.{Char, code}
use gb_automations.Base.{
  ℕ, String, ◌<>◌, Bool, true, false, Option, none, some, List, [], ◌∷◌, ◌&&◌, leb, ◌==◌,
  if◌then◌else◌, chars, take_chars, strip, or_text,
}

-- s.isdigit(), for ASCII digits; the empty text has none
unfoldable pub all_digits : String → Bool
all_digits String.[] = true
all_digits (String.◌∷◌ c s) = let rest = all_digits s in leb 48 (code c) && leb (code c) 57 && rest

unfoldable pub year_from_created_time : Option String → String
unfolding all_digits
year_from_created_time created =
    let t = or_text created "" in
    let year = take_chars 4 t in if leb 4 (chars t) && all_digits year then year else "unknown"

-- `out.replace(ch, "-")` for a character by its code
unfoldable pub replace : ℕ → String → String
replace ch String.[] = String.[]
replace ch (String.◌∷◌ c s) =
    let rest = replace ch s in if code c == ch then "-" <> rest else String.◌∷◌ c rest

-- The codes of _ILLEGAL_LEAF_CHARS, in its order.
abbrev pub illegal_leaf_chars : List ℕ
illegal_leaf_chars = 92 ∷ 47 ∷ 58 ∷ 42 ∷ 63 ∷ 34 ∷ 60 ∷ 62 ∷ 124 ∷ []

unfoldable pub replace_all : List ℕ → String → String
unfolding replace
replace_all [] s = s
replace_all (ch ∷ chs) s = replace_all chs (replace ch s)

unfoldable pub sanitize_leaf : String → String
unfolding replace_all
sanitize_leaf name = strip (replace_all illegal_leaf_chars name)

unfoldable pub project_path_parts : String → Option String → String × String
unfolding year_from_created_time sanitize_leaf
project_path_parts name created = (year_from_created_time created, sanitize_leaf name)

unfoldable pub project_label_path : String → Option String → String
unfolding project_path_parts
project_label_path name created =
    let parts = project_path_parts name created in "Prosjekt" <> "/" <> parts.0 <> "/" <> parts.1
