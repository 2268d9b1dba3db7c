-- ===== src/Tests/OnQueue.antt =====
-- The laws of the queue on the concrete table.
use gb_automations.Base.{
  ℕ, ◌+◌, true, false, none, some, [], ◌∷◌, ◌≡◌, refl, arith, All, keep_if, here, there, ok, err,
  unique_violation, any_of, truthy, count_if, ◌==◌, if◌then◌else◌, length, not, ◌&&◌, ◌*◌, ◌≤◌, min,
}
use gb_automations.Schema.{
  SyncTask, Status, TaskType, Db, same_type, live_index, is_in_progress, is_columns, model_index,
  touch, clashes, insert_or_skip,
}
use gb_automations.Schema.Valid.{IsValid, inserted}
use gb_automations.Queue.Request.{Request, enqueue, row, columns, wanted}
use gb_automations.Queue.Owed.{
  columns-index, is_migration_only, enqueue_lem, enqueue-IsValid, owed-enqueue, enqueue-enqueue,
  owed,
}
use gb_automations.Queue.Enqueue.{enqueue_frame_project_sync, enqueue_threads}
use gb_automations.Queue.Threads.{enqueue_threads_lem, stands_for}
use gb_automations.Queue.Claim.{claim_one, eligible}
use gb_automations.Queue.Claim.Laws.{ClaimOutcome, claim_one-outcome}
use gb_automations.Queue.Outcome.{find_task, mark_done, mark_failed, backoff}
use gb_automations.Queue.Outcome.Find.{on_some}
use gb_automations.Queue.Outcome.Laws.{Succeeds, mark_failed_lem, mark_done_lem, settled, done_view}
use gb_automations.Queue.Outcome.Backoff.{backoff_doubles}
use gb_automations.Queue.Rollup.{project_sync_state}
use gb_automations.Queue.Rollup.Laws.{Tells, project_sync_state-Tells}
use gb_automations.Queue.Recovery.{is_thread, reset_in_progress, requeue_failed, set_task_project}
use gb_automations.Queue.Recovery.Laws.{
  reset_in_progress_lem, reset-eligible, set_task_project_lem, recovered,
}
use gb_automations.Queue.Recovery.Duplicate.{Duplicate}
use gb_automations.Queue.Recovery.Retry.{
  RetryOutcome, requeue_failed-outcome, requeue_failed-blocked,
}
use gb_automations.Tests.Data.{
  task, due_thread, busy_labels, dead_thread, table, table-IsValid, free,
}

find_due : find_task 2 table.rows ≡ some due_thread
unfolding find_task
find_due = refl

find_busy : find_task 3 table.rows ≡ some busy_labels
unfolding find_task
find_busy = refl

claim_one-outcome_example : ClaimOutcome free 10 table (claim_one free 10 table)
claim_one-outcome_example = claim_one-outcome free 10 table table-IsValid

mark_done_lem_example :
    (n : ℕ) × Succeeds (mark_done 20 2 table) n (done_view 20 2 due_thread table.rows)
mark_done_lem_example = mark_done_lem 20 2 table due_thread table-IsValid find_due

mark_failed_lem_example : Succeeds (mark_failed 20 2 2 "HTTP 500" 5 30 table) false (λ j.
    if 2 == j
    then some (touch 20 (settled 20 2 "HTTP 500" 5 30 due_thread))
    else find_task j table.rows)
mark_failed_lem_example =
    mark_failed_lem 20 2 2 "HTTP 500" 5 30 table due_thread table-IsValid find_due refl

abbrev frame_request : Request
frame_request = Request.for_frame_project_sync "p1"

abbrev enqueued : Db
enqueued = inserted (row 10 frame_request) table

frame_enqueued : enqueue 10 frame_request table ≡ ok (1, enqueued)
unfolding enqueue enqueue_frame_project_sync insert_or_skip live_index clashes same_type row
frame_enqueued = refl

enqueue_lem_example : enqueue 10 frame_request table ≡ (
    if wanted frame_request && not (owed frame_request table.rows)
    then ok (1, enqueued)
    else ok (0, table))
enqueue_lem_example = enqueue_lem 10 frame_request table

enqueue-IsValid_run : IsValid enqueued
enqueue-IsValid_run = enqueue-IsValid 10 frame_request table table-IsValid frame_enqueued

owed-enqueue_run : owed frame_request enqueued.rows ≡ true
unfolding wanted
owed-enqueue_run = owed-enqueue 10 frame_request table refl frame_enqueued

enqueue-enqueue_run : enqueue 15 frame_request enqueued ≡ ok (0, enqueued)
enqueue-enqueue_run = enqueue-enqueue 10 15 frame_request table frame_enqueued

columns-index_run :
    (is_columns (columns frame_request) (live_index (row 10 frame_request).task_type) ≡ true)
    × (is_columns (columns frame_request) (model_index (row 10 frame_request).task_type)
        ≡ not (is_migration_only frame_request))
columns-index_run = columns-index 10 frame_request

enqueue_threads_lem_example :
    (n : ℕ) × (db' : Db) × (enqueue_threads 10 "ola@gb.no" ("t7" ∷ "" ∷ "t2" ∷ []) false table
      ≡ ok (n, db'))
    × IsValid db'
    × (length db'.rows ≡ length table.rows + n)
    × All
        (λ tid. any_of (stands_for "ola@gb.no" tid) db'.rows ≡ true)
        (keep_if truthy ("t7" ∷ "" ∷ "t2" ∷ []))
enqueue_threads_lem_example =
    enqueue_threads_lem 10 "ola@gb.no" false ("t7" ∷ "" ∷ "t2" ∷ []) table table-IsValid

reset_in_progress_lem_example :
    Succeeds
      (reset_in_progress 20 table)
      (count_if (λ (r : SyncTask). is_in_progress r.status) table.rows)
      (λ j. on_some (recovered 20) (find_task j table.rows))
reset_in_progress_lem_example = reset_in_progress_lem 20 table table-IsValid

reset-eligible_example :
    (n : ℕ) × (db' : Db) × (reset_in_progress 20 table ≡ ok (n, db'))
    × ((r : SyncTask) × (find_task 3 db'.rows ≡ some r) × (eligible free 20 r ≡ true))
reset-eligible_example = reset-eligible 20 3 table busy_labels table-IsValid find_busy refl

requeue_failed-outcome_example :
    RetryOutcome 20 (some "t1") table (requeue_failed 20 (some "t1") table)
requeue_failed-outcome_example = requeue_failed-outcome 20 (some "t1") table table-IsValid

-- A thread that failed for good, and was enqueued again since.
abbrev again : SyncTask
again = task 4 TaskType.thread "t1" Status.pending none 0 8

abbrev twice : Db
twice = record { rows = dead_thread ∷ again ∷ []; next_id = 5 }

twice-Duplicate : Duplicate none twice.rows
unfolding same_type live_index is_thread
twice-Duplicate = record {
  one = dead_thread;
  other = again;
  one_in = here refl;
  other_in = there (here refl);
  apart = λ e. omega (arith, e);
  one_revived = refl;
  other_revived = refl;
  types = refl;
  keys = refl;
}

requeue_failed-blocked_example : requeue_failed 20 none twice ≡ err unique_violation
requeue_failed-blocked_example = requeue_failed-blocked 20 none twice twice-Duplicate

set_task_project_lem_run :
    Succeeds
      (set_task_project 20 2 "p9" table)
      (count_if (λ (r : SyncTask). r.id == 2) table.rows)
      (λ j.
        if 2 == j
        then some (touch 20 (record due_thread { project_page_id = some "p9" }))
        else find_task j table.rows)
unfolding live_index
set_task_project_lem_run =
    set_task_project_lem 20 2 "p9" table due_thread table-IsValid find_due (λ e. cc)

backoff_doubles_example :
    (backoff 30 1 ≡ min 30 3600)
    × (backoff 30 5 ≡ min (2 * backoff 30 4) 3600)
    × (backoff 30 3 ≤ 3600)
backoff_doubles_example = backoff_doubles 30 3

project_sync_state-Tells_example : Tells "p1" table.rows (project_sync_state "p1" table.rows)
project_sync_state-Tells_example = project_sync_state-Tells "p1" table.rows
