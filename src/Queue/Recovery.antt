-- ===== src/Queue/Recovery.antt =====
-- queue.py: boot recovery, the operator's retry, and the project that the worker fills in.
pub mod Duplicate
pub mod Retry
pub mod Laws
use gb_automations.Base.{
  ℕ, String, Bool, true, false, Option, none, some, Tx, ◌&&◌, ◌==◌, if◌then◌else◌, str_eq, present,
}
use gb_automations.Schema.{SyncTask, Db, pending, is_in_progress, is_failed, update}

unfoldable pub reset_in_progress : ℕ → Tx Db ℕ
reset_in_progress now =
    update now (λ r. is_in_progress r.status)
      (λ r. record r { status = pending; started_at = none; next_attempt_at = now })

-- WHERE gmail_thread_id = …, which an absent or empty id leaves out
unfoldable pub is_thread : Option String → SyncTask → Bool
is_thread none r = true
is_thread (some thread_id) r =
    if present (some thread_id) then str_eq r.gmail_thread_id thread_id else true

abbrev pub requeued : ℕ → SyncTask → SyncTask
requeued now r = record r {
  status = pending;
  attempts = 0;
  started_at = none;
  finished_at = none;
  last_error = none;
  next_attempt_at = now;
}

unfoldable pub requeue_failed : ℕ → Option String → Tx Db ℕ
unfolding is_thread
requeue_failed now thread_id =
    update now (λ r. is_failed r.status && is_thread thread_id r) (requeued now)

unfoldable pub set_task_project : ℕ → ℕ → String → Tx Db ℕ
set_task_project now task_id project =
    update now (λ r. r.id == task_id) (λ r. record r { project_page_id = some project })
