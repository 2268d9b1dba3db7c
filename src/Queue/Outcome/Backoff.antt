-- ===== src/Queue/Outcome/Backoff.antt =====
-- The delay before a retry.
use native.Mathlib.Numerals.{towards_suc}
use gb_automations.Base.{ℕ, ◌+◌, ◌-◌, ◌*◌, ◌^◌, ◌≤◌, min, ◌≡◌, arith}
use gb_automations.Queue.Outcome.{backoff}

pow_double : (n : ℕ) → 2 ^ (n + 1) ≡ 2 * 2 ^ n
pow_double n = simp towards_suc (omega arith)

sub_one : (n : ℕ) → (n + 2 - 1 ≡ n + 1) × (n + 1 - 1 ≡ n)
sub_one n = omega arith

-- The delay after the first attempt is the base, it doubles with each further attempt, and it
-- never passes an hour.
pub backoff_doubles :
    (base n : ℕ)
    → (backoff base 1 ≡ min base 3600)
      × (backoff base (n + 2) ≡ min (2 * backoff base (n + 1)) 3600)
      × (backoff base n ≤ 3600)
unfolding backoff
backoff_doubles base n =
    (omega arith, rw ((sub_one n).0, (sub_one n).1, pow_double) (omega arith), omega arith)
