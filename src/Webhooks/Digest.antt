-- ===== src/Webhooks/Digest.antt =====
-- hmac.compare_digest of two texts, by which routes/webhooks.py compares a token and a signature.
use Prim.Native.Char.{code}
use text.Mathlib.TextLemmas.{nil-append, cons-append}
use gb_automations.Base.{
  String, ◌<>◌, Bool, true, false, none, leb, ◌&&◌, ◌≡◌, refl, arith, if◌then◌else◌, str_eq,
  str_eq_iff, Bool-cases, inl, inr,
}
use gb_automations.Worker.Engines.{Attempt, Exception, returned, raised}

-- s.isascii()
unfoldable pub is_ascii : String → Bool
is_ascii String.[] = true
is_ascii (String.◌∷◌ c s) = let rest = is_ascii s in leb (code c) 127 && rest

abbrev pub type_error : Exception
type_error = record {
  summary = none;
  message = "comparing strings with non-ASCII characters is not supported";
  class_name = "TypeError";
}

unfoldable pub compare_digest : String → String → Attempt Bool
unfolding is_ascii
compare_digest s t = if is_ascii s && is_ascii t then returned (str_eq s t) else raised type_error

and_assoc : (a b c : Bool) → (a && (b && c)) ≡ ((a && b) && c)
and_assoc true b c = refl
and_assoc false b c = refl

pub is_ascii-append : (s t : String) → is_ascii (s <> t) ≡ (is_ascii s && is_ascii t)
unfolding is_ascii
is_ascii-append String.[] t = rw (nil-append t) refl
is_ascii-append (String.◌∷◌ c s) t =
    rw (cons-append c s t, is_ascii-append s t)
      (and_assoc (leb (code c) 127) (is_ascii s) (is_ascii t))

pub compare_digest-true : (s t : String) → compare_digest s t ≡ returned true → s ≡ t
unfolding compare_digest
compare_digest-true s t = elim (Bool-cases (is_ascii s && is_ascii t)) [
  | inl a ↦ rw a (λ h. (str_eq_iff s t).0 (ground (arith, h)))
  | inr a ↦ rw a (λ h. ground (arith, h))
]
