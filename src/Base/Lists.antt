-- ===== src/Base/Lists.antt =====
-- Lists measured by native numbers, and predicates on their members by recursion.
use Prim.Native.Nat.{ℕ, suc, ◌+◌}
use mathlib.Core.Path.{◌≡◌, subst, refl}
use mathlib.Core.Bool.{Bool, true, false}
use mathlib.Core.List.{List, [], ◌∷◌, ◌++◌}
use native.Mathlib.Omega.{arith}
use gb_automations.Base.Tests.{if◌then◌else◌}

module _ {ℓ} {A : Type ℓ} where
  abbrev pub length : List A → ℕ
  length [] = 0
  length (x ∷ xs) = suc (length xs)

  -- How many members pass a test.
  abbrev pub count_if : (A → Bool) → List A → ℕ
  count_if p [] = 0
  count_if p (x ∷ xs) = (if p x then 1 else 0) + count_if p xs

  -- The members that pass a test, in their order.
  abbrev pub keep_if : (A → Bool) → List A → List A
  keep_if p [] = []
  keep_if p (x ∷ xs) = let rest = keep_if p xs in if p x then x ∷ rest else rest

  abbrev pub any_of : (A → Bool) → List A → Bool
  any_of p [] = false
  any_of p (x ∷ xs) = if p x then true else any_of p xs

module _ {ℓ} {A : Type ℓ} where
  pub length-append : (xs ys : List A) → length (xs ++ ys) ≡ length xs + length ys
  length-append [] ys = omega arith
  length-append (x ∷ xs) ys = omega (arith, length-append xs ys)

  pub any_of-append_left :
      (p : A → Bool) (xs ys : List A) → any_of p xs ≡ true → any_of p (xs ++ ys) ≡ true
  any_of-append_left p (x ∷ xs) ys h = ground (arith, any_of-append_left p xs ys)
  any_of-append_left p [] ys h = cc

  pub any_of-append_last :
      (p : A → Bool) (xs : List A) (y : A) → p y ≡ true → any_of p (xs ++ y ∷ []) ≡ true
  any_of-append_last p [] y h = rw h
  any_of-append_last p (x ∷ xs) y h = ground (arith, any_of-append_last p xs y)

module _ {ℓ κ} {A : Type ℓ} where
  abbrev pub All : (A → Type κ) → List A → Type κ
  All P [] = Unit
  All P (x ∷ xs) = P x × All P xs

  pub All-append : (P : A → Type κ) (xs ys : List A) → All P xs → All P ys → All P (xs ++ ys)
  All-append P [] ys hx hy = hy
  All-append P (x ∷ xs) ys hx hy = (hx.0, All-append P xs ys hx.1 hy)

  All-keep_step :
      (P : A → Type κ) (b : Bool) (x : A) (rest : List A)
      → P x
      → All P rest
      → All P (if b then x ∷ rest else rest)
  All-keep_step P true x rest h t = (h, t)
  All-keep_step P false x rest h t = t

  pub All-keep_if : (P : A → Type κ) (p : A → Bool) (xs : List A) → All P xs → All P (keep_if p xs)
  All-keep_if P p [] h = h
  All-keep_if P p (x ∷ xs) h = All-keep_step P (p x) x (keep_if p xs) h.0 (All-keep_if P p xs h.1)

pub All-imp {ℓ κ μ} :
    {A : Type ℓ} (P : A → Type κ) (Q : A → Type μ)
    → ((a : A) → P a → Q a)
    → (xs : List A) → All P xs
    → All Q xs
All-imp P Q f [] h = tt
All-imp P Q f (x ∷ xs) h = (f x h.0, All-imp P Q f xs h.1)

-- Membership, with the position kept.
pub data In {ℓ} {A : Type ℓ} (a : A) : List A → Type ℓ where
  here : {x : A} {xs : List A} → x ≡ a → In a (x ∷ xs)
  there : {x : A} {xs : List A} → In a xs → In a (x ∷ xs)

pub All-In {ℓ κ} : {A : Type ℓ} {a : A} (P : A → Type κ) {xs : List A} → In a xs → All P xs → P a
All-In P (here e) h = rw e at h.0
All-In P (there m) h = All-In P m h.1

pub All-each {ℓ κ} :
    {A : Type ℓ} (P : A → Type κ) (xs : List A) → ((a : A) → In a xs → P a) → All P xs
All-each P [] f = tt
All-each P (x ∷ xs) f = (f x (here refl), All-each P xs (λ a m. f a (there m)))

module _ {ℓ} {A : Type ℓ} where
  pub In-append_left : {a : A} {xs : List A} (ys : List A) → In a xs → In a (xs ++ ys)
  In-append_left ys (here e) = here e
  In-append_left ys (there m) = there (In-append_left ys m)

  pub In-append_right : {a : A} (xs : List A) {ys : List A} → In a ys → In a (xs ++ ys)
  In-append_right [] m = m
  In-append_right (x ∷ xs) m = there (In-append_right xs m)

  pub In-cons {κ} :
      (P : A → Type κ) (x : A) (xs : List A)
      → P x
      → ((a : A) → In a xs → P a)
      → (a : A) → In a (x ∷ xs)
      → P a
  In-cons P x xs h f a (here e) = subst P e h
  In-cons P x xs h f a (there m) = f a m

  -- A member of a concatenation is a member of a part.
  pub In-append {κ} :
      (P : A → Type κ) (xs ys : List A)
      → ((a : A) → In a xs → P a)
      → ((a : A) → In a ys → P a)
      → (a : A) → In a (xs ++ ys)
      → P a
  In-append P [] ys f g a m = g a m
  In-append P (x ∷ xs) ys f g a (here e) = f a (here e)
  In-append P (x ∷ xs) ys f g a (there m) = In-append P xs ys (λ b n. f b (there n)) g a m
