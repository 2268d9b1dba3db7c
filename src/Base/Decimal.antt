-- ===== src/Base/Decimal.antt =====
-- Numbers printed in decimal, and what reading the digits back gives.
use Prim.Native.Nat.{ℕ, zero, suc, ◌+◌, ◌/◌, ◌%◌, ◌≤◌, ◌<◌, ◌*◌, ◌-◌}
use Prim.Native.Char.{Char, code}
use Prim.Native.String.{String, ◌++◌ as ◌<>◌}
use mathlib.Core.Path.{◌≡◌, ap, ◌∙◌}
use mathlib.Core.Logic.{inl, inr}
use mathlib.Core.Bool.{true}
use native.Mathlib.Omega.{arith}
use text.Mathlib.TextLemmas.{nil-append, cons-append}
use gb_automations.Base.Tests.{ltb, ◌==◌, if◌then◌else◌, Bool-cases}
use gb_automations.Base.Text.{truthy, Chars, IsDigit}

digit : ℕ → String
digit d =
    if d == 0
    then "0"
    else if d == 1
    then "1"
    else if d == 2
    then "2"
    else if d == 3
    then "3"
    else if d == 4
    then "4"
    else if d == 5
    then "5"
    else if d == 6
    then "6"
    else if d == 7
    then "7"
    else if d == 8
    then "8"
    else "9"

digits_onto : ℕ → ℕ → String → String
digits_onto zero n s = s
digits_onto (suc fuel) n s =
    let t = digit (n % 10) <> s in
    let rest = digits_onto fuel (n / 10) t in if ltb n 10 then t else rest

-- `str(n)`; a number has no more digits than itself and one
unfoldable pub decimal : ℕ → String
unfolding digits_onto digit
decimal n = digits_onto (n + 1) n ""

pub Chars-append : (P : ℕ → Type 0) (s t : String) → Chars P s → Chars P t → Chars P (s <> t)
Chars-append P String.[] t h k = rw (nil-append t) k
Chars-append P (String.◌∷◌ c s) t h k = rw (cons-append c s t) (h.0, Chars-append P s t h.1 k)

digit-IsDigit : (d : ℕ) → d < 10 → Chars IsDigit (digit d)
unfolding digit
digit-IsDigit zero h = ((omega arith, omega arith), tt)
digit-IsDigit (suc zero) h = ((omega arith, omega arith), tt)
digit-IsDigit (suc (suc zero)) h = ((omega arith, omega arith), tt)
digit-IsDigit (suc (suc (suc zero))) h = ((omega arith, omega arith), tt)
digit-IsDigit (suc (suc (suc (suc zero)))) h = ((omega arith, omega arith), tt)
digit-IsDigit (suc (suc (suc (suc (suc zero))))) h = ((omega arith, omega arith), tt)
digit-IsDigit (suc (suc (suc (suc (suc (suc zero)))))) h = ((omega arith, omega arith), tt)
digit-IsDigit (suc (suc (suc (suc (suc (suc (suc zero))))))) h = ((omega arith, omega arith), tt)
digit-IsDigit (suc (suc (suc (suc (suc (suc (suc (suc zero)))))))) h =
    ((omega arith, omega arith), tt)
digit-IsDigit (suc (suc (suc (suc (suc (suc (suc (suc (suc zero))))))))) h =
    ((omega arith, omega arith), tt)
digit-IsDigit (suc (suc (suc (suc (suc (suc (suc (suc (suc (suc d)))))))))) h =
    absurd (omega (arith, h))

-- The number that decimal digits add to one that was read before them.
abbrev pub value : ℕ → String → ℕ
value n String.[] = n
value n (String.◌∷◌ c s) = value (n * 10 + (code c - 48)) s

pub single : (c : Char) (s : String) → String.◌∷◌ c String.[] <> s ≡ String.◌∷◌ c s
single c s = cons-append c String.[] s ∙ ap (String.◌∷◌ c) (nil-append s)

value-digit : (n d : ℕ) (s : String) → d < 10 → value n (digit d <> s) ≡ value (n * 10 + d) s
unfolding digit
value-digit n zero s h = ap (value n) (single _ s)
value-digit n (suc zero) s h = ap (value n) (single _ s)
value-digit n (suc (suc zero)) s h = ap (value n) (single _ s)
value-digit n (suc (suc (suc zero))) s h = ap (value n) (single _ s)
value-digit n (suc (suc (suc (suc zero)))) s h = ap (value n) (single _ s)
value-digit n (suc (suc (suc (suc (suc zero))))) s h = ap (value n) (single _ s)
value-digit n (suc (suc (suc (suc (suc (suc zero)))))) s h = ap (value n) (single _ s)
value-digit n (suc (suc (suc (suc (suc (suc (suc zero))))))) s h = ap (value n) (single _ s)
value-digit n (suc (suc (suc (suc (suc (suc (suc (suc zero)))))))) s h = ap (value n) (single _ s)
value-digit n (suc (suc (suc (suc (suc (suc (suc (suc (suc zero))))))))) s h =
    ap (value n) (single _ s)
value-digit n (suc (suc (suc (suc (suc (suc (suc (suc (suc (suc d)))))))))) s h =
    absurd (omega (arith, h))

truthy-digit : (d : ℕ) (s : String) → d < 10 → truthy (digit d <> s) ≡ true
unfolding digit
truthy-digit zero s h = ap truthy (single _ s)
truthy-digit (suc zero) s h = ap truthy (single _ s)
truthy-digit (suc (suc zero)) s h = ap truthy (single _ s)
truthy-digit (suc (suc (suc zero))) s h = ap truthy (single _ s)
truthy-digit (suc (suc (suc (suc zero)))) s h = ap truthy (single _ s)
truthy-digit (suc (suc (suc (suc (suc zero))))) s h = ap truthy (single _ s)
truthy-digit (suc (suc (suc (suc (suc (suc zero)))))) s h = ap truthy (single _ s)
truthy-digit (suc (suc (suc (suc (suc (suc (suc zero))))))) s h = ap truthy (single _ s)
truthy-digit (suc (suc (suc (suc (suc (suc (suc (suc zero)))))))) s h = ap truthy (single _ s)
truthy-digit (suc (suc (suc (suc (suc (suc (suc (suc (suc zero))))))))) s h = ap truthy (single _ s)
truthy-digit (suc (suc (suc (suc (suc (suc (suc (suc (suc (suc d)))))))))) s h =
    absurd (omega (arith, h))

value-digits_onto :
    (fuel n : ℕ) (s : String) → n < fuel → value 0 (digits_onto fuel n s) ≡ value n s
unfolding digits_onto
value-digits_onto zero n s h = absurd (omega (arith, h))
value-digits_onto (suc fuel) n s h = elim (Bool-cases (ltb n 10)) [
  | inl e ↦ rw e (value-digit 0 (n % 10) s (omega arith) ∙ ap (λ k. value k s) (ground arith))
  | inr e ↦ rw e (
      value-digits_onto fuel (n / 10) (digit (n % 10) <> s) (ground arith)
      ∙ value-digit (n / 10) (n % 10) s (omega arith)
      ∙ ap (λ k. value k s) (omega arith))
]

digits_onto-IsDigit :
    (fuel n : ℕ) (s : String) → Chars IsDigit s → Chars IsDigit (digits_onto fuel n s)
unfolding digits_onto
digits_onto-IsDigit zero n s h = h
digits_onto-IsDigit (suc fuel) n s h =
    let t = Chars-append IsDigit (digit (n % 10)) s (digit-IsDigit (n % 10) (omega arith)) h in
    elim (Bool-cases (ltb n 10)) [
      | inl e ↦ rw e t
      | inr e ↦ rw e (digits_onto-IsDigit fuel (n / 10) (digit (n % 10) <> s) t)
    ]

-- The printed number reads back, and consists of digits.
pub value-decimal : (n : ℕ) → value 0 (decimal n) ≡ n
unfolding decimal
value-decimal n = value-digits_onto (n + 1) n "" (omega arith)

pub decimal-IsDigit : (n : ℕ) → Chars IsDigit (decimal n)
unfolding decimal
decimal-IsDigit n = digits_onto-IsDigit (n + 1) n "" tt

digits_onto-truthy :
    (fuel n : ℕ) (s : String) → truthy s ≡ true → truthy (digits_onto fuel n s) ≡ true
unfolding digits_onto
digits_onto-truthy zero n s h = h
digits_onto-truthy (suc fuel) n s h =
    let t = truthy-digit (n % 10) s (omega arith) in
    elim (Bool-cases (ltb n 10)) [
      | inl e ↦ rw e t
      | inr e ↦ rw e (digits_onto-truthy fuel (n / 10) (digit (n % 10) <> s) t)
    ]

pub truthy-decimal : (n : ℕ) → truthy (decimal n) ≡ true
unfolding decimal digits_onto
truthy-decimal n = go n (n + 1) (omega arith)
  where
    go : (n fuel : ℕ) → 1 ≤ fuel → truthy (digits_onto fuel n "") ≡ true
    go n zero h = absurd (omega (arith, h))
    go n (suc fuel) h =
        let t = truthy-digit (n % 10) "" (omega arith) in
        elim (Bool-cases (ltb n 10)) [
          | inl e ↦ rw e t
          | inr e ↦ rw e (digits_onto-truthy fuel (n / 10) (digit (n % 10) <> "") t)
        ]
