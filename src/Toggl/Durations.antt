-- ===== src/Toggl/Durations.antt =====
-- The Duration cell of Toggl's CSV export, read as seconds.
pub mod Split
pub mod Roundtrip
use Prim.Native.Char.{Char, code}
use gb_automations.Base.{
  ℕ, zero, suc, ◌+◌, ◌-◌, ◌*◌, String, Bool, true, false, Option, none, some, List, [], ◌∷◌, ◌&&◌,
  leb, ◌==◌, if◌then◌else◌, strip,
}

abbrev pub onto_first : Char → List String → List String
onto_first c [] = String.◌∷◌ c String.[] ∷ []
onto_first c (w ∷ ws) = String.◌∷◌ c w ∷ ws

-- `s.split(sep)` for a separator of one character, given by its code
unfoldable pub split : ℕ → String → List String
split sep String.[] = String.[] ∷ []
split sep (String.◌∷◌ c s) =
    let rest = split sep s in if code c == sep then String.[] ∷ rest else onto_first c rest

-- Decimal digits with single underscores between them, read onto a number; `seen` tells whether the
-- last character was a digit.
unfoldable pub read_digits : Bool → ℕ → String → Option ℕ
read_digits seen n String.[] = if seen then some n else none
read_digits seen n (String.◌∷◌ c s) =
    let more = read_digits true (n * 10 + (code c - 48)) s in
    let later = read_digits false n s in
    if leb 48 (code c) && leb (code c) 57
    then more
    else if code c == 95 && seen
    then later
    else none

-- zero with a minus sign is zero, and any other negative number is no number here
only_zero : Option ℕ → Option ℕ
only_zero (some zero) = some 0
only_zero _ = none

unfoldable pub signed : String → Option ℕ
unfolding read_digits only_zero
signed String.[] = none
signed (String.◌∷◌ c s) =
    if code c == 43
    then read_digits false 0 s
    else if code c == 45
    then only_zero (read_digits false 0 s)
    else read_digits false 0 (String.◌∷◌ c s)

-- `int(p)` for ASCII digits; none where it raises or is negative, which the parser treats alike
unfoldable pub natural : String → Option ℕ
unfolding signed
natural s = signed (strip s)

unfoldable pub hms : Option ℕ → Option ℕ → Option ℕ → ℕ
hms (some h) (some m) (some s) = h * 3600 + m * 60 + s
hms _ _ _ = 0

unfoldable pub of_parts : List String → ℕ
unfolding natural hms
of_parts (h ∷ m ∷ s ∷ []) = hms (natural h) (natural m) (natural s)
of_parts _ = 0

unfoldable pub parse_csv_duration_to_seconds : String → ℕ
unfolding split of_parts
parse_csv_duration_to_seconds duration = of_parts (split 58 duration)
