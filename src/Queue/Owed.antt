-- ===== src/Queue/Owed.antt =====
-- What an enqueue call leaves on the queue: the work is owed, once.
use mathlib.Core.Path.{fun_ext, subst}
use text.Mathlib.TextPositions.{eq_refl}
use gb_automations.Base.{
  ℕ, Bool, true, false, List, ◌≡◌, refl, ap, ok, not, ◌&&◌, any_of, any_of-append_last, arith,
  if◌then◌else◌, Bool-cases, inl, inr,
}
use gb_automations.Schema.{
  SyncTask, Db, TaskType, clashes, is_columns, live_index, model_index, same_type, same_type_iff,
}
use gb_automations.Schema.Valid.{IsValid, inserted, insert_or_skip-cases, insert_or_skip-IsValid}
use gb_automations.Queue.Request.{Request, enqueue, row, columns, wanted, enqueue-insert}

-- An active row stands for the request's page.
abbrev pub owed : Request → List SyncTask → Bool
owed q rows = any_of (clashes (columns q) (row 0 q)) rows

same_type_refl : (t : TaskType) → same_type t t ≡ true
same_type_refl t = (same_type_iff t t).1 refl

-- The calls whose index models.py does not declare.
abbrev pub is_migration_only : Request → Bool
is_migration_only (Request.for_task_folder_sync _) = true
is_migration_only (Request.for_graduate_faktura _) = true
is_migration_only _ = false

-- Every enqueue call names a unique index of its task type that a migrated database has; of the
-- indexes that models.py declares, the calls for task folders and for graduation find none, and
-- all others find theirs.
pub columns-index :
    (now : ℕ) (q : Request)
    → (is_columns (columns q) (live_index (row now q).task_type) ≡ true)
      × (is_columns (columns q) (model_index (row now q).task_type) ≡ not (is_migration_only q))
unfolding columns row live_index
columns-index now (Request.for_label_sync p) = (refl, refl)
columns-index now _ = (refl, refl)

columns-live_index :
    (now : ℕ) (q : Request) → is_columns (columns q) (live_index (row now q).task_type) ≡ true
columns-live_index now q = (columns-index now q).0

clashes-now :
    (now : ℕ) (q : Request) (r : SyncTask)
    → clashes (columns q) (row now q) r ≡ clashes (columns q) (row 0 q) r
unfolding clashes columns row
clashes-now now (Request.for_label_sync p) r = refl
clashes-now now _ r = refl

owed-now :
    (now : ℕ) (q : Request) (rows : List SyncTask)
    → any_of (clashes (columns q) (row now q)) rows ≡ owed q rows
owed-now now q rows = ap (λ p. any_of p rows) (fun_ext (clashes-now now q))

-- The whole behaviour of a call: it adds its one row where it has an id and no active row
-- stands for it, and nothing otherwise. It never raises.
pub enqueue_lem :
    (now : ℕ) (q : Request) (db : Db)
    → enqueue now q db
      ≡ (if wanted q && not (owed q db.rows) then ok (1, inserted (row now q) db) else ok (0, db))
enqueue_lem now q db = ground (
  arith,
  enqueue-insert now q,
  columns-live_index now q,
  owed-now now q db.rows,
  insert_or_skip-cases (columns q) (row now q) db,
)

-- A call keeps a well-formed table well-formed.
pub enqueue-IsValid :
    (now : ℕ) (q : Request) (db : Db) {n : ℕ} {db' : Db}
    → IsValid db
    → enqueue now q db ≡ ok (n, db')
    → IsValid db'
enqueue-IsValid now q db {n} {db'} v h = elim (Bool-cases (wanted q)) [
  | inl w ↦
      insert_or_skip-IsValid (columns q) (row now q) db {n = n} {db' = db'} v
        (ground (arith, enqueue-insert now q))
  | inr w ↦ subst IsValid (ground (arith, enqueue-insert now q)) v
]

clashes_self :
    (now : ℕ) (q : Request) (n : ℕ)
    → clashes (columns q) (row 0 q) (record (row now q) { id = n }) ≡ true
unfolding clashes columns row
clashes_self now (Request.for_label_sync p) n = rw (same_type_refl TaskType.label_sync, eq_refl)
clashes_self now _ n = simp (same_type_refl, eq_refl)

-- After a call with an id the work is owed: an active row stands for it.
pub owed-enqueue :
    (now : ℕ) (q : Request) (db : Db) {n : ℕ} {db' : Db}
    → wanted q ≡ true
    → enqueue now q db ≡ ok (n, db')
    → owed q db'.rows ≡ true
owed-enqueue now q db {n} {db'} w h = ground (
  arith,
  enqueue_lem now q db,
  any_of-append_last (clashes (columns q) (row 0 q)) db.rows
      (record (row now q) { id = db.next_id }),
  clashes_self now q db.next_id,
)

-- A second call for the same page, at any later time, adds nothing and changes nothing.
pub enqueue-enqueue :
    (now later : ℕ) (q : Request) (db : Db) {n : ℕ} {db' : Db}
    → enqueue now q db ≡ ok (n, db')
    → enqueue later q db' ≡ ok (0, db')
enqueue-enqueue now later q db {n} {db'} h = elim (Bool-cases (wanted q)) [
  | inl w ↦ rw (enqueue_lem later q db', w, owed-enqueue now q db w h) refl
  | inr w ↦ rw (enqueue_lem later q db', w) refl
]
