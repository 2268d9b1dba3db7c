-- ===== src/Queue/Claim/Laws.antt =====
-- A claim on a well-formed table.
use gb_automations.Base.{
  ℕ, ◌+◌, Bool, true, false, Option, none, some, List, ◌≡◌, refl, arith, All, In, here, there,
  Result, ok, inl, inr, Option-cases, ◌==◌, All-imp,
}
use gb_automations.Schema.{SyncTask, Db, update_rows, conflicts, touch, is_active}
use gb_automations.Schema.Unique.{Reflects, step}
use gb_automations.Schema.Valid.{IsValid, update-IsValid}
use gb_automations.Queue.Claim.{eligible, oldest, claimed, claim_row, claim_one}
use gb_automations.Queue.Claim.Fifo.{IsFirst, oldest-IsFirst, oldest-eq-none, DistinctIds-In}

-- The rows with the key `id` are active.
abbrev pub ActiveAt : ℕ → SyncTask → Type 0
ActiveAt id r = (r.id == id) ≡ true → is_active r.status ≡ true

-- The table after `t` was claimed.
abbrev pub after_claim : ℕ → SyncTask → Db → Db
after_claim now t db = record db {
  rows = update_rows now (λ r. r.id == t.id) (claimed now (t.attempts + 1)) db.rows;
}

claim-Reflects :
    (now id n : ℕ) (r s : SyncTask)
    → ActiveAt id r
    → ActiveAt id s
    → Reflects (step now (λ r. r.id == id) (claimed now n)) r s
unfolding conflicts
claim-Reflects now id n r s hr hs h = ground arith

In-update_rows :
    {t : SyncTask} (now : ℕ) (f : SyncTask → SyncTask) {rows : List SyncTask}
    → In t rows
    → In (touch now (f t)) (update_rows now (λ r. r.id == t.id) f rows)
unfolding update_rows
In-update_rows {t} now f (here {x} {xs} e) = here (rw e (ground arith))
In-update_rows {t} now f (there m) = there (In-update_rows now f m)

-- What a claim comes to: nothing is eligible and nothing changes, or the first eligible row is
-- handed out and stands in the table as in_progress, with one more attempt.
pub data ClaimOutcome (locked : ℕ → Bool) (now : ℕ) (db : Db) (r : Result (Option SyncTask × Db))
    : Type 0 where
  nothing :
      All (λ (s : SyncTask). eligible locked now s ≡ false) db.rows
      → r ≡ ok (none, db)
      → ClaimOutcome locked now db r
  taken :
      (t : SyncTask)
      → IsFirst (eligible locked now) db.rows t
      → r ≡ ok (some (claimed now (t.attempts + 1) t), after_claim now t db)
      → In (touch now (claimed now (t.attempts + 1) t)) (after_claim now t db).rows
      → IsValid (after_claim now t db)
      → ClaimOutcome locked now db r

eligible-is_active :
    (locked : ℕ → Bool) (now : ℕ) (r : SyncTask)
    → eligible locked now r ≡ true
    → is_active r.status ≡ true
unfolding eligible
eligible-is_active locked now r h = ground arith

claim_row-outcome :
    (locked : ℕ → Bool) (now : ℕ) (db : Db) (t : SyncTask)
    → IsValid db
    → IsFirst (eligible locked now) db.rows t
    → ClaimOutcome locked now db (claim_row now (some t) db)
unfolding claim_row
claim_row-outcome locked now db t v first =
    let at =
      All-imp (λ (s : SyncTask). s.id ≡ t.id → s ≡ t) (ActiveAt t.id)
        (λ s same e. rw (same (ground arith)) (eligible-is_active locked now t first.passes))
        db.rows (DistinctIds-In first.member v.distinct) in
    let u =
      update-IsValid now (λ r. r.id == t.id) (claimed now (t.attempts + 1)) (λ r. refl)
        (ActiveAt t.id) (claim-Reflects now t.id (t.attempts + 1)) db at v in
    ClaimOutcome.taken t first (rw u.0 refl)
      (In-update_rows now (claimed now (t.attempts + 1)) first.member) u.1

-- On a well-formed table a claim never raises, and has one of the two outcomes.
pub claim_one-outcome :
    (locked : ℕ → Bool) (now : ℕ) (db : Db)
    → IsValid db
    → ClaimOutcome locked now db (claim_one locked now db)
unfolding claim_one
claim_one-outcome locked now db v = elim (Option-cases (oldest (eligible locked now) db.rows)) [
  | inl e ↦ rw e (unfold claim_row in ClaimOutcome.nothing (oldest-eq-none _ db.rows e) refl)
  | inr (t, e) ↦ rw e (claim_row-outcome locked now db t v (oldest-IsFirst _ db.rows t e))
]
