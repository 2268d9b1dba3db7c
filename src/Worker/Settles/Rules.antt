-- ===== src/Worker/Settles/Rules.antt =====
-- Total correctness of coroutines: from a state with `P` the coroutine returns, without raising, in
-- a state with `Q`.
use gb_automations.Base.{◌≡◌, refl, ok}
use gb_automations.Worker.Exec.{Exec, pure, ◌>>=◌}

pub record Reaches {ℓ} {S A : Type 0} (P : S → Type ℓ) (m : Exec S A) (Q : A → S → Type ℓ)
    : Type ℓ where
  pub at : (s : S) → P s → (a : A) × (t : S) × (m s ≡ (ok a, t)) × Q a t

module _ {ℓ} {S A : Type 0} where
  pub Reaches-pure :
      (P : S → Type ℓ) (Q : A → S → Type ℓ) (a : A) → ((s : S) → P s → Q a s) → Reaches P (pure a) Q
  unfolding pure
  Reaches-pure P Q a h = record { at = λ s p. (a, s, refl, h s p) }

module _ {ℓ} {S A B : Type 0} {P : S → Type ℓ} {Q : A → S → Type ℓ} {R : B → S → Type ℓ} where
  pub Reaches-bind :
      {m : Exec S A} {f : A → Exec S B}
      → Reaches P m Q
      → ((a : A) → Reaches (Q a) (f a) R)
      → Reaches P (m >>= f) R
  unfolding ◌>>=◌
  Reaches-bind {m} {f} hm hf = record {
    at = λ s p.
        let (a, t, e, q) = hm.at s p in
        let (b, u, e', r) = (hf a).at t q in (b, u, rw (e, e') refl, r);
  }
