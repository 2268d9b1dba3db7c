-- ===== src/Mirror/Bounds.antt =====
-- What a refresh of a project's dot writes into its progress field.
use text.Mathlib.TextLemmas.{nil-append, cons-append}
use gb_automations.Base.{
  ◌+◌, ◌≤◌, String, ◌<>◌, arith, chars, chars-take_chars, take_chars, strip, ltb, ◌≡◌, Bool-cases,
  inl, inr,
}
use gb_automations.Mirror.{clean_subject}

chars-append : (s t : String) → chars (s <> t) ≡ chars s + chars t
chars-append String.[] t = rw (nil-append t) (omega arith)
chars-append (String.◌∷◌ c s) t = rw (cons-append c s t) (omega (arith, chars-append s t))

-- The subject that a project's progress field shows has at most eighty characters.
pub chars-clean_subject : (subject : String) → chars (clean_subject subject) ≤ 80
unfolding clean_subject
chars-clean_subject subject = elim (Bool-cases (ltb 80 (chars (strip subject)))) [
  | inl e ↦ rw e (
      omega (
        arith,
        chars-append (take_chars 77 (strip subject)) "…",
        chars-take_chars 77 (strip subject),
      ))
  | inr e ↦ rw e (ground arith)
]
