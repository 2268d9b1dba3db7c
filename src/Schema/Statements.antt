-- ===== src/Schema/Statements.antt =====
-- The SQL statements of queue.py over the table: INSERT … ON CONFLICT DO NOTHING, UPDATE and
-- DELETE, with the unique indexes enforced. A raised error rolls the transaction back.
use gb_automations.Base.{
  ℕ, ◌+◌, Bool, true, false, Option, none, some, List, [], ◌∷◌, ◌++◌, ◌&&◌, not, ok, err, Tx,
  no_matching_index, unique_violation, count_if, keep_if, any_of, if◌then◌else◌,
}
use gb_automations.Schema.Rows.{
  SyncTask, KeyColumns, Db, conflicts, live_index, same_columns, is_active, same_type,
}

unfoldable pub none_conflicts : SyncTask → List SyncTask → Bool
none_conflicts r [] = true
none_conflicts r (s ∷ rows) = not (conflicts r s) && none_conflicts r rows

-- What the unique indexes enforce.
unfoldable pub unique_active : List SyncTask → Bool
unique_active [] = true
unique_active (r ∷ rows) = none_conflicts r rows && unique_active rows

-- `onupdate=func.now()`
abbrev pub touch : ℕ → SyncTask → SyncTask
touch now r = record r { updated_at = now }

unfoldable pub update_rows :
    ℕ → (SyncTask → Bool) → (SyncTask → SyncTask) → List SyncTask → List SyncTask
update_rows now p f [] = []
update_rows now p f (r ∷ rows) = (if p r then touch now (f r) else r) ∷ update_rows now p f rows

-- UPDATE sync_tasks SET … WHERE …, with its row count
unfoldable pub update : ℕ → (SyncTask → Bool) → (SyncTask → SyncTask) → Tx Db ℕ
update now p f db =
    let rows = update_rows now p f db.rows in
    if unique_active rows
    then ok (count_if p db.rows, record db { rows = rows })
    else err unique_violation

-- DELETE FROM sync_tasks WHERE …
unfoldable pub delete : (SyncTask → Bool) → Tx Db ℕ
delete p db = ok (count_if p db.rows, record db { rows = keep_if (λ r. not (p r)) db.rows })

-- What ON CONFLICT names, index_elements and the task type of index_where, is an index.
abbrev pub is_columns : KeyColumns → Option KeyColumns → Bool
is_columns k none = false
is_columns KeyColumns.user_and_thread (some KeyColumns.user_and_thread) = true
is_columns KeyColumns.thread_column (some KeyColumns.thread_column) = true
is_columns KeyColumns.project_column (some KeyColumns.project_column) = true
is_columns _ (some _) = false

-- An active row of the index that holds the new row's key.
unfoldable pub clashes : KeyColumns → SyncTask → SyncTask → Bool
clashes k new r = is_active r.status && same_type r.task_type new.task_type && same_columns k r new

-- INSERT … ON CONFLICT (columns) WHERE … DO NOTHING, one row, with its row count
unfoldable pub insert_or_skip : KeyColumns → SyncTask → Tx Db ℕ
insert_or_skip k new db =
    if is_columns k (live_index new.task_type)
    then (if any_of (clashes k new) db.rows
        then ok (0, db)
        else ok (
          1,
          record db {
            rows = db.rows ++ record new { id = db.next_id } ∷ [];
            next_id = db.next_id + 1;
          },
        ))
    else err no_matching_index
