-- ===== src/Toggl/Durations/Split.antt =====
-- What `split` gives of a text whose first part has no separator.
use Prim.Native.Char.{Char, code}
use text.Mathlib.TextLemmas.{nil-append, cons-append}
use gb_automations.Base.{ℕ, String, ◌<>◌, true, false, [], ◌∷◌, ◌≡◌, refl, arith, ◌==◌, Chars}
use gb_automations.Toggl.Durations.{split}

number-same : (n : ℕ) → (n == n) ≡ true
number-same n = ground arith

abbrev pub IsOther : ℕ → ℕ → Type 0
IsOther ch c = (c == ch) ≡ false

-- No character is the one of the code.
abbrev pub Without : ℕ → String → Type 0
Without ch s = Chars (IsOther ch) s

pub split-first :
    (c : Char) (s t : String)
    → Without (code c) s
    → split (code c) (s <> String.◌∷◌ c t) ≡ s ∷ split (code c) t
unfolding split
split-first c String.[] t h = rw (nil-append (String.◌∷◌ c t), number-same (code c)) refl
split-first c (String.◌∷◌ x s) t h =
    rw (cons-append x s (String.◌∷◌ c t), h.0, split-first c s t h.1) refl

pub split-whole : (sep : ℕ) (s : String) → Without sep s → split sep s ≡ s ∷ []
unfolding split
split-whole sep String.[] h = refl
split-whole sep (String.◌∷◌ c s) h = rw (h.0, split-whole sep s h.1) refl
