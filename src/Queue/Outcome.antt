-- ===== src/Queue/Outcome.antt =====
-- queue.py, mark_done and mark_failed: the outcome of an attempt.
pub mod Laws
pub mod Find
pub mod Backoff
use gb_automations.Base.{
  ℕ, ◌+◌, ◌-◌, ◌*◌, ◌^◌, min, String, Bool, true, false, Option, none, some, List, [], ◌∷◌, Tx,
  pure, ◌>>=◌, ◌>>◌, ◌&&◌, not, leb, ◌==◌, if◌then◌else◌, truthy, take_chars, same_text,
}
use gb_automations.Schema.{
  SyncTask, TaskType, Db, pending, done, failed, is_failed, same_type, update, delete,
}

-- session.get(SyncTask, task_id)
unfoldable pub find_task : ℕ → List SyncTask → Option SyncTask
find_task id [] = none
find_task id (r ∷ rows) = if r.id == id then some r else find_task id rows

abbrev pub finished : ℕ → SyncTask → SyncTask
finished now r = record r { status = done; finished_at = some now; last_error = none }

-- The rows that a success clears: terminally failed ones of its project and its task type.
unfoldable pub is_stale : ℕ → String → TaskType → SyncTask → Bool
is_stale task_id project task_type r =
    same_text r.project_page_id (some project)
    && same_type r.task_type task_type
    && is_failed r.status
    && not (r.id == task_id)

unfoldable pub clear_stale : ℕ → Option SyncTask → Tx Db ℕ
unfolding is_stale
clear_stale task_id none = pure 0
clear_stale task_id (some task) = elim task.project_page_id [
  | none ↦ pure 0
  | some project ↦
      if truthy project then delete (is_stale task_id project task.task_type) else pure 0
]

unfoldable pub mark_done : ℕ → ℕ → Tx Db ℕ
mark_done now task_id db =
    let task = find_task task_id db.rows in
    (do update now (λ r. r.id == task_id) (finished now); clear_stale task_id task) db

-- base * 2 ** max(attempts - 1, 0), at most an hour; `-` stops at 0 as `max` does
unfoldable pub backoff : ℕ → ℕ → ℕ
backoff base attempts = min (base * 2 ^ (attempts - 1)) 3600

abbrev pub parked : ℕ → String → SyncTask → SyncTask
parked now error r = record r {
  status = failed;
  finished_at = some now;
  last_error = some (take_chars 2000 error);
}

abbrev pub delayed : ℕ → String → SyncTask → SyncTask
delayed at error r = record r {
  status = pending;
  next_attempt_at = at;
  last_error = some (take_chars 2000 error);
}

-- `attempts` is the number that the caller claimed the task with. The result says whether the
-- task has failed for good.
unfoldable pub mark_failed : ℕ → ℕ → ℕ → String → ℕ → ℕ → Tx Db Bool
unfolding backoff
mark_failed now task_id attempts error max_attempts base_backoff_seconds =
    if leb max_attempts attempts
    then (do update now (λ r. r.id == task_id) (parked now error); pure true)
    else (do
      update now (λ r. r.id == task_id)
          (delayed (now + backoff base_backoff_seconds attempts) error)
      pure false)
