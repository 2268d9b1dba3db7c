-- ===== src/Base/Text.antt =====
-- Python's `str` where the program looks inside one: a prefix by characters, and truth values.
use Prim.Native.Nat.{ℕ, zero, suc, ◌+◌, ◌≤◌}
use Prim.Native.Char.{code}
use Prim.Native.String.{String}
use mathlib.Core.Path.{◌≡◌, refl}
use mathlib.Core.Logic.{inl, inr}
use mathlib.Core.Bool.{Bool, true, false, not, ◌&&◌, ◌||◌}
use mathlib.Core.Option.{Option, none, some}
use mathlib.Core.List.{List, [], ◌∷◌}
use text.Mathlib.Text.{◌==◌ as str_eq}
use gb_automations.Base.Tests.{ltb, leb, ◌==◌, if◌then◌else◌, Bool-cases}
use native.Mathlib.Omega.{arith}

-- `len(s)`
abbrev pub chars : String → ℕ
chars String.[] = 0
chars (String.◌∷◌ c s) = suc (chars s)

-- `s[:n]`
pub take_chars : ℕ → String → String
take_chars zero s = String.[]
take_chars (suc n) String.[] = String.[]
take_chars (suc n) (String.◌∷◌ c s) = String.◌∷◌ c (take_chars n s)

pub chars-take_chars : (n : ℕ) (s : String) → chars (take_chars n s) ≤ n
unfolding take_chars
chars-take_chars zero s = omega arith
chars-take_chars (suc n) String.[] = omega arith
chars-take_chars (suc n) (String.◌∷◌ c s) = omega (arith, chars-take_chars n s)

-- `bool(s)`: the empty text is false.
abbrev pub truthy : String → Bool
truthy String.[] = false
truthy (String.◌∷◌ c s) = true

-- `bool(s)` of a `str | None`.
abbrev pub present : Option String → Bool
present none = false
present (some s) = truthy s

-- `a < b` on texts: by code points, a proper prefix first.
unfoldable pub before : String → String → Bool
before s String.[] = false
before String.[] (String.◌∷◌ d t) = true
before (String.◌∷◌ c s) (String.◌∷◌ d t) =
    let rest = before s t in
    if ltb (code c) (code d) then true else if code c == code d then rest else false

-- One more member of a set of texts that is kept as an ascending list.
unfoldable pub set_add : String → List String → List String
unfolding before
set_add s [] = s ∷ []
set_add s (t ∷ ts) =
    let rest = set_add s ts in
    if str_eq s t then t ∷ ts else if before s t then s ∷ t ∷ ts else t ∷ rest

-- `sorted({s for s in ts if s})`
unfoldable pub sorted_set : List String → List String
unfolding set_add
sorted_set [] = []
sorted_set (t ∷ ts) = let rest = sorted_set ts in if truthy t then set_add t rest else rest

-- SQL's equality of two nullable texts under a unique index: a NULL equals nothing.
abbrev pub same_text : Option String → Option String → Bool
same_text none q = false
same_text (some a) none = false
same_text (some a) (some b) = str_eq a b

-- `str.isspace` of one character
is_space : ℕ → Bool
is_space c =
    (leb 9 c && leb c 13)
    || (leb 28 c && leb c 32)
    || c == 133
    || c == 160
    || c == 5760
    || (leb 8192 c && leb c 8202)
    || c == 8232
    || c == 8233
    || c == 8239
    || c == 8287
    || c == 12288

-- `s.lstrip()`
lstrip : String → String
lstrip String.[] = String.[]
lstrip (String.◌∷◌ c s) = let rest = lstrip s in if is_space (code c) then rest else String.◌∷◌ c s

-- `s.rstrip()`
rstrip : String → String
rstrip String.[] = String.[]
rstrip (String.◌∷◌ c s) =
    let rest = rstrip s in
    if is_space (code c) && not (truthy rest) then String.[] else String.◌∷◌ c rest

-- `s.strip()`
unfoldable pub strip : String → String
unfolding is_space lstrip rstrip
strip s = rstrip (lstrip s)

-- A predicate of the codes of all characters.
abbrev pub Chars : (ℕ → Type 0) → String → Type 0
Chars P String.[] = Unit
Chars P (String.◌∷◌ c s) = P (code c) × Chars P s

abbrev pub IsDigit : ℕ → Type 0
IsDigit c = (48 ≤ c) × (c ≤ 57)

is_space-IsDigit : (c : ℕ) → IsDigit c → is_space c ≡ false
unfolding is_space
is_space-IsDigit c h = ground (arith, h.0, h.1)

rstrip-digits : (s : String) → Chars IsDigit s → rstrip s ≡ s
unfolding rstrip
rstrip-digits String.[] h = refl
rstrip-digits (String.◌∷◌ c s) h = rw (is_space-IsDigit (code c) h.0, rstrip-digits s h.1) refl

pub strip-digits : (s : String) → Chars IsDigit s → strip s ≡ s
unfolding strip lstrip
strip-digits String.[] h = refl
strip-digits (String.◌∷◌ c s) h =
    rw (is_space-IsDigit (code c) h.0) (rstrip-digits (String.◌∷◌ c s) h)

-- `a or b` of a nullable text and a text
abbrev pub or_text : Option String → String → String
or_text none b = b
or_text (some a) b = if truthy a then a else b

-- `str.lower` of one character, wherever it gives an ASCII letter or ø: the capitals, and the
-- Kelvin sign
lower_code : ℕ → ℕ
lower_code c =
    if leb 65 c && leb c 90 then c + 32 else if c == 216 then 248 else if c == 8490 then 107 else c

-- `s.lower() == t`, for a text t of lower-case ASCII letters and ø
unfoldable pub same_lower : String → String → Bool
unfolding lower_code
same_lower String.[] String.[] = true
same_lower String.[] (String.◌∷◌ d t) = false
same_lower (String.◌∷◌ c s) String.[] = false
same_lower (String.◌∷◌ c s) (String.◌∷◌ d t) =
    let rest = same_lower s t in lower_code (code c) == code d && rest

pub Chars-map : (P Q : ℕ → Type 0) (s : String) → ((c : ℕ) → P c → Q c) → Chars P s → Chars Q s
Chars-map P Q String.[] f h = h
Chars-map P Q (String.◌∷◌ c s) f h = (f (code c) h.0, Chars-map P Q s f h.1)

Chars-lstrip : (P : ℕ → Type 0) (s : String) → Chars P s → Chars P (lstrip s)
unfolding lstrip
Chars-lstrip P String.[] h = h
Chars-lstrip P (String.◌∷◌ c s) h = elim (Bool-cases (is_space (code c))) [
  | inl e ↦ rw e (Chars-lstrip P s h.1)
  | inr e ↦ rw e h
]

Chars-rstrip : (P : ℕ → Type 0) (s : String) → Chars P s → Chars P (rstrip s)
unfolding rstrip
Chars-rstrip P String.[] h = h
Chars-rstrip P (String.◌∷◌ c s) h =
    elim (Bool-cases (is_space (code c) && not (truthy (rstrip s)))) [
      | inl e ↦ rw e tt
      | inr e ↦ rw e (h.0, Chars-rstrip P s h.1)
    ]

pub Chars-strip : (P : ℕ → Type 0) (s : String) → Chars P s → Chars P (strip s)
unfolding strip
Chars-strip P s h = Chars-rstrip P (lstrip s) (Chars-lstrip P s h)
