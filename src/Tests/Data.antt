-- ===== src/Tests/Data.antt =====
-- Concrete tables and engines for the examples.
use gb_automations.Base.{ℕ, String, Bool, false, Option, none, some, [], ◌∷◌, refl, arith}
use gb_automations.Schema.{
  SyncTask, Status, TaskType, Db, unique_active, none_conflicts, conflicts, same_type, live_index,
}
use gb_automations.Schema.Valid.{IsValid}

abbrev pub task : ℕ → TaskType → String → Status → Option String → ℕ → ℕ → SyncTask
task id task_type key status project attempts due = record {
  id = id;
  task_type = task_type;
  user_email = "ola@gb.no";
  gmail_thread_id = key;
  status = status;
  rebuild = false;
  project_page_id = project;
  attempts = attempts;
  last_error = none;
  enqueued_at = 0;
  started_at = none;
  finished_at = none;
  next_attempt_at = due;
  updated_at = 0;
}

abbrev pub due_thread : SyncTask
due_thread = task 2 TaskType.thread "t2" Status.pending (some "p1") 1 5

abbrev pub busy_labels : SyncTask
busy_labels = task 3 TaskType.label_sync "p1" Status.in_progress (some "p1") 1 0

abbrev pub dead_thread : SyncTask
dead_thread = task 1 TaskType.thread "t1" Status.failed (some "p1") 5 0

abbrev pub table : Db
table = record { rows = dead_thread ∷ due_thread ∷ busy_labels ∷ []; next_id = 4 }

pub table-IsValid : IsValid table
unfolding unique_active none_conflicts conflicts same_type live_index
table-IsValid = record {
  unique = refl;
  distinct = (
    ((λ e. omega (arith, e)), ((λ e. omega (arith, e)), tt)),
    (((λ e. omega (arith, e)), tt), (tt, tt)),
  );
  drawn = (omega arith, (omega arith, (omega arith, tt)));
}

-- No row is locked.
abbrev pub free : ℕ → Bool
free _ = false
