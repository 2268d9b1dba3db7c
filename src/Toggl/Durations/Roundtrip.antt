-- ===== src/Toggl/Durations/Roundtrip.antt =====
-- A duration of three decimal numbers reads back.
use Prim.Native.Char.{code}
use gb_automations.Base.{
  ℕ, ◌+◌, ◌-◌, ◌*◌, String, ◌<>◌, Bool, true, false, some, ◌∷◌, ◌≡◌, refl, ap, ◌∙◌, arith, leb,
  ◌==◌, ◌&&◌, ◌⊎◌, inl, inr, truthy, Chars, IsDigit, strip-digits, value, value-decimal,
  decimal-IsDigit, truthy-decimal, decimal, single, Chars-map,
}
use gb_automations.Toggl.Durations.Split.{Without, split-first, split-whole}
use gb_automations.Toggl.Durations.{
  split, read_digits, natural, signed, hms, of_parts, parse_csv_duration_to_seconds,
}

digit_tests :
    (c : ℕ)
    → IsDigit c
    → ((leb 48 c && leb c 57) ≡ true)
      × ((c == 43) ≡ false)
      × ((c == 45) ≡ false)
      × ((c == 58) ≡ false)
digit_tests c h =
    (ground (arith, h.0, h.1), ground (arith, h.0), ground (arith, h.0), ground (arith, h.1))

read_digits-value :
    (b : Bool) (n : ℕ) (s : String)
    → Chars IsDigit s
    → (b ≡ true) ⊎ (truthy s ≡ true)
    → read_digits b n s ≡ some (value n s)
unfolding read_digits
read_digits-value true n String.[] h k = refl
read_digits-value false n String.[] h k = ground (arith, k)
read_digits-value b n (String.◌∷◌ c s) h k =
    rw (digit_tests (code c) h.0).0
      (read_digits-value true (n * 10 + (code c - 48)) s h.1 (inl refl))

signed-digits : (s : String) → Chars IsDigit s → truthy s ≡ true → signed s ≡ some (value 0 s)
unfolding signed
signed-digits String.[] h k = ground arith
signed-digits (String.◌∷◌ c s) h k =
    let d = digit_tests (code c) h.0 in
    rw (d.1, d.2) (read_digits-value false 0 (String.◌∷◌ c s) h (inr k))

natural-digits : (s : String) → Chars IsDigit s → truthy s ≡ true → natural s ≡ some (value 0 s)
unfolding natural
natural-digits s h k = rw (strip-digits s h) (signed-digits s h k)

natural-decimal : (n : ℕ) → natural (decimal n) ≡ some n
natural-decimal n =
    natural-digits (decimal n) (decimal-IsDigit n) (truthy-decimal n) ∙ ap some (value-decimal n)

digits-Without : (s : String) → Chars IsDigit s → Without 58 s
digits-Without s = Chars-map IsDigit _ s (λ c h. (digit_tests c h).3)

split-digits : (s t : String) → Chars IsDigit s → split 58 (s <> ":" <> t) ≡ s ∷ split 58 t
split-digits s t h =
    ap (λ x. split 58 (s <> x)) (single _ t) ∙ split-first _ s t (digits-Without s h)

-- A duration that is written as three decimal numbers of hours, minutes and seconds reads as their
-- seconds.
pub parse_csv_duration-decimal :
    (h m s : ℕ)
    → parse_csv_duration_to_seconds (decimal h <> ":" <> decimal m <> ":" <> decimal s)
      ≡ h * 3600 + m * 60 + s
unfolding parse_csv_duration_to_seconds of_parts hms
parse_csv_duration-decimal h m s =
    rw
      (
        split-digits (decimal h) (decimal m <> ":" <> decimal s) (decimal-IsDigit h),
        split-digits (decimal m) (decimal s) (decimal-IsDigit m),
        split-whole 58 (decimal s) (digits-Without (decimal s) (decimal-IsDigit s)),
        natural-decimal h,
        natural-decimal m,
        natural-decimal s,
      )
      refl
