-- ===== src/Schema/Valid.antt =====
-- Well-formed tables: the unique indexes hold, and the primary keys are distinct and were drawn
-- from the sequence.
use mathlib.Core.Path.{subst}
use gb_automations.Base.{
  ℕ, ◌+◌, ◌<◌, ◌≤◌, Bool, true, false, Bool-cases, inl, inr, List, [], ◌∷◌, ◌++◌, ◌≡◌, ◌≢◌, refl,
  arith, All, All-append, All-keep_if, keep_if, any_of, count_if, ok, not, if◌then◌else◌,
}
use gb_automations.Schema.Rows.{SyncTask, Db, KeyColumns, conflicts, live_index, same_type_iff}
use gb_automations.Schema.Statements.{
  unique_active, update_rows, update, insert_or_skip, clashes, is_columns,
}
use gb_automations.Schema.Unique.{
  Reflects, step, unique_active-update_rows, unique_active-keep_if, unique_active-append,
}

abbrev pub DistinctIds : List SyncTask → Type 0
DistinctIds [] = Unit
DistinctIds (r ∷ rows) = All (λ (s : SyncTask). s.id ≢ r.id) rows × DistinctIds rows

pub record IsValid (db : Db) : Type 0 where
  pub unique : unique_active db.rows ≡ true
  pub distinct : DistinctIds db.rows
  pub drawn : All (λ (r : SyncTask). r.id < db.next_id) db.rows

module _ {ℓ} (P : SyncTask → Type ℓ) (now : ℕ) (p : SyncTask → Bool) (f : SyncTask → SyncTask)
    (keeps : (r : SyncTask) → P r → P (step now p f r)) where
  pub All-update_rows : (rows : List SyncTask) → All P rows → All P (update_rows now p f rows)
  unfolding update_rows
  All-update_rows [] h = h
  All-update_rows (r ∷ rows) h = (keeps r h.0, All-update_rows rows h.1)

module _ (now : ℕ) (p : SyncTask → Bool) (f : SyncTask → SyncTask)
    (keeps : (r : SyncTask) → (f r).id ≡ r.id) where
  id-step : (r : SyncTask) → (step now p f r).id ≡ r.id
  id-step r = ground (arith, keeps r)

  DistinctIds-update_rows :
      (rows : List SyncTask) → DistinctIds rows → DistinctIds (update_rows now p f rows)
  unfolding update_rows
  DistinctIds-update_rows [] h = h
  DistinctIds-update_rows (r ∷ rows) h = (
    rw (id-step r) (
        All-update_rows (λ (s : SyncTask). s.id ≢ r.id) now p f (λ s ne. rw (id-step s) ne) rows
          h.0),
    DistinctIds-update_rows rows h.1,
  )

  -- An update that keeps the keys and leaves no conflict leaves a well-formed table.
  pub updated-IsValid :
      (db : Db)
      → unique_active (update_rows now p f db.rows) ≡ true
      → IsValid db
      → IsValid (record db { rows = update_rows now p f db.rows })
  updated-IsValid db u v = record {
    unique = u;
    distinct = DistinctIds-update_rows db.rows v.distinct;
    drawn =
        All-update_rows (λ (r : SyncTask). r.id < db.next_id) now p f (λ r h. rw (id-step r) h)
          db.rows v.drawn;
  }

  -- An update that keeps the keys and cannot bring two rows into conflict succeeds, and leaves a
  -- well-formed table.
  pub update-IsValid {ℓ} :
      (Q : SyncTask → Type ℓ)
      → ((r s : SyncTask) → Q r → Q s → Reflects (step now p f) r s)
      → (db : Db) → All Q db.rows
      → IsValid db
      → let rows = update_rows now p f db.rows in
        (update now p f db ≡ ok (count_if p db.rows, record db { rows = rows }))
        × IsValid (record db { rows = rows })
  unfolding update
  update-IsValid Q reflects db q v =
      let kept = unique_active-update_rows Q now p f reflects db.rows q v.unique in
      (rw kept refl, updated-IsValid db kept v)

DistinctIds-keep_if :
    (p : SyncTask → Bool) (rows : List SyncTask) → DistinctIds rows → DistinctIds (keep_if p rows)
DistinctIds-keep_if p [] h = h
DistinctIds-keep_if p (r ∷ rows) h = elim (Bool-cases (p r)) [
  | inl e ↦
      rw e (All-keep_if (λ (s : SyncTask). s.id ≢ r.id) p rows h.0, DistinctIds-keep_if p rows h.1)
  | inr e ↦ rw e (DistinctIds-keep_if p rows h.1)
]

-- Deleting rows leaves a well-formed table.
pub delete-IsValid :
    (p : SyncTask → Bool) (db : Db)
    → IsValid db
    → IsValid (record db { rows = keep_if (λ r. not (p r)) db.rows })
delete-IsValid p db v = record {
  unique = unique_active-keep_if (λ r. not (p r)) db.rows v.unique;
  distinct = DistinctIds-keep_if (λ r. not (p r)) db.rows v.distinct;
  drawn = All-keep_if (λ (r : SyncTask). r.id < db.next_id) (λ r. not (p r)) db.rows v.drawn;
}

DistinctIds-append :
    (new : SyncTask) (rows : List SyncTask)
    → All (λ (r : SyncTask). r.id < new.id) rows
    → DistinctIds rows
    → DistinctIds (rows ++ new ∷ [])
DistinctIds-append new [] l h = (tt, tt)
DistinctIds-append new (r ∷ rows) l h = (
  All-append (λ (s : SyncTask). s.id ≢ r.id) rows (new ∷ []) h.0 ((λ e. omega (arith, l.0)), tt),
  DistinctIds-append new rows l.1 h.1,
)

All-weaken :
    (n m : ℕ) (rows : List SyncTask)
    → n ≤ m
    → All (λ (r : SyncTask). r.id < n) rows
    → All (λ (r : SyncTask). r.id < m) rows
All-weaken n m [] le h = tt
All-weaken n m (r ∷ rows) le h = (omega (arith, h.0), All-weaken n m rows le h.1)

-- A conflict with the new row under the index that ON CONFLICT names is a clash.
clashes_of_conflict :
    (k : KeyColumns) (new r : SyncTask) (n : ℕ)
    → is_columns k (live_index new.task_type) ≡ true
    → conflicts r (record new { id = n }) ≡ true
    → clashes k new r ≡ true
unfolding conflicts clashes
clashes_of_conflict KeyColumns.user_and_thread new r n c h =
    ground (arith, same_type_iff r.task_type new.task_type)
clashes_of_conflict KeyColumns.thread_column new r n c h =
    ground (arith, same_type_iff r.task_type new.task_type)
clashes_of_conflict KeyColumns.project_column new r n c h =
    ground (arith, same_type_iff r.task_type new.task_type)

-- The table after an insert that found no clash.
abbrev pub inserted : SyncTask → Db → Db
inserted new db = record db {
  rows = db.rows ++ record new { id = db.next_id } ∷ [];
  next_id = db.next_id + 1;
}

pub inserted-IsValid :
    (k : KeyColumns) (new : SyncTask) (db : Db)
    → is_columns k (live_index new.task_type) ≡ true
    → any_of (clashes k new) db.rows ≡ false
    → IsValid db
    → IsValid (inserted new db)
inserted-IsValid k new db c a v = record {
  unique =
      unique_active-append (clashes k new) (record new { id = db.next_id }) db.rows
        (λ r. clashes_of_conflict k new r db.next_id c) a v.unique;
  distinct = DistinctIds-append (record new { id = db.next_id }) db.rows v.drawn v.distinct;
  drawn =
      All-append (λ (r : SyncTask). r.id < db.next_id + 1) db.rows _
        (All-weaken db.next_id (db.next_id + 1) db.rows (omega arith) v.drawn) (omega arith, tt);
}

-- The three outcomes of an insert.
pub insert_or_skip-cases :
    (k : KeyColumns) (new : SyncTask) (db : Db)
    → is_columns k (live_index new.task_type) ≡ true
    → insert_or_skip k new db
      ≡ (if any_of (clashes k new) db.rows then ok (0, db) else ok (1, inserted new db))
unfolding insert_or_skip
insert_or_skip-cases k new db c = rw c refl

-- An insert that does not raise leaves a well-formed table.
pub insert_or_skip-IsValid :
    (k : KeyColumns) (new : SyncTask) (db : Db) {n : ℕ} {db' : Db}
    → IsValid db
    → insert_or_skip k new db ≡ ok (n, db')
    → IsValid db'
unfolding insert_or_skip
insert_or_skip-IsValid k new db {n} {db'} v h =
    elim (Bool-cases (is_columns k (live_index new.task_type))) [
      | inl c ↦ elim (Bool-cases (any_of (clashes k new) db.rows)) [
        | inl a ↦ subst IsValid (ground arith) v
        | inr a ↦ subst IsValid (ground arith) (inserted-IsValid k new db c a v)
      ]
      | inr c ↦ absurd (ground arith)
    ]
