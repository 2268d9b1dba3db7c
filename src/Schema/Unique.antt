-- ===== src/Schema/Unique.antt =====
-- The unique indexes under UPDATE, DELETE and INSERT.
use gb_automations.Base.{
  ℕ, Bool, true, false, List, [], ◌∷◌, ◌++◌, ◌≡◌, refl, ◌&&◌, arith, All, keep_if, any_of,
  if◌then◌else◌,
}
use gb_automations.Schema.Rows.{SyncTask, conflicts}
use gb_automations.Schema.Statements.{none_conflicts, unique_active, update_rows, touch}

-- Whatever conflicts after a change of `r` and `s` conflicted before.
abbrev pub Reflects : (SyncTask → SyncTask) → SyncTask → SyncTask → Type 0
Reflects g r s = conflicts (g r) (g s) ≡ true → conflicts r s ≡ true

abbrev pub step : ℕ → (SyncTask → Bool) → (SyncTask → SyncTask) → SyncTask → SyncTask
step now p f r = if p r then touch now (f r) else r

module _ {ℓ} (Q : SyncTask → Type ℓ) (now : ℕ) (p : SyncTask → Bool) (f : SyncTask → SyncTask)
    (reflects : (r s : SyncTask) → Q r → Q s → Reflects (step now p f) r s) where
  none_conflicts-update_rows :
      (r : SyncTask) (rows : List SyncTask)
      → Q r
      → All Q rows
      → none_conflicts r rows ≡ true
      → none_conflicts (step now p f r) (update_rows now p f rows) ≡ true
  unfolding none_conflicts update_rows
  none_conflicts-update_rows r [] q qs h = refl
  none_conflicts-update_rows r (s ∷ rows) q qs h =
      ground (arith, reflects r s q qs.0, none_conflicts-update_rows r rows q qs.1)

  pub unique_active-update_rows :
      (rows : List SyncTask)
      → All Q rows
      → unique_active rows ≡ true
      → unique_active (update_rows now p f rows) ≡ true
  unfolding unique_active update_rows
  unique_active-update_rows [] qs h = refl
  unique_active-update_rows (r ∷ rows) qs h =
      ground
        (arith, none_conflicts-update_rows r rows qs.0 qs.1, unique_active-update_rows rows qs.1)

none_conflicts-keep_if :
    (p : SyncTask → Bool) (r : SyncTask) (rows : List SyncTask)
    → none_conflicts r rows ≡ true
    → none_conflicts r (keep_if p rows) ≡ true
unfolding none_conflicts
none_conflicts-keep_if p r [] h = refl
none_conflicts-keep_if p r (s ∷ rows) h = ground (arith, none_conflicts-keep_if p r rows)

pub unique_active-keep_if :
    (p : SyncTask → Bool) (rows : List SyncTask)
    → unique_active rows ≡ true
    → unique_active (keep_if p rows) ≡ true
unfolding unique_active
unique_active-keep_if p [] h = refl
unique_active-keep_if p (r ∷ rows) h =
    ground (arith, none_conflicts-keep_if p r rows, unique_active-keep_if p rows)

none_conflicts-append :
    (r new : SyncTask) (rows : List SyncTask)
    → none_conflicts r rows ≡ true
    → conflicts r new ≡ false
    → none_conflicts r (rows ++ new ∷ []) ≡ true
unfolding none_conflicts
none_conflicts-append r new [] h c = ground arith
none_conflicts-append r new (s ∷ rows) h c = ground (arith, none_conflicts-append r new rows)

-- A row that no test of `p` stops is one that conflicts with none.
pub unique_active-append :
    (p : SyncTask → Bool) (new : SyncTask) (rows : List SyncTask)
    → ((r : SyncTask) → conflicts r new ≡ true → p r ≡ true)
    → any_of p rows ≡ false
    → unique_active rows ≡ true
    → unique_active (rows ++ new ∷ []) ≡ true
unfolding unique_active none_conflicts
unique_active-append p new [] stops a h = refl
unique_active-append p new (r ∷ rows) stops a h =
    ground (arith, stops r, none_conflicts-append r new rows, unique_active-append p new rows stops)

pub and_parts :
    (a b c d : Bool) → (a && b && c && d) ≡ true → (a ≡ true) × (b ≡ true) × (c ≡ true) × (d ≡ true)
and_parts a b c d h = ground arith

pub and_intro :
    (a b c d : Bool) → a ≡ true → b ≡ true → c ≡ true → d ≡ true → (a && b && c && d) ≡ true
and_intro a b c d p q r s = ground arith
