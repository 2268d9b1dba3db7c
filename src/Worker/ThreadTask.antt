-- ===== src/Worker/ThreadTask.antt =====
-- A thread task, and the dispatch of a claimed task by its type (jobs/queue_worker.py, _process).
use gb_automations.Base.{
  String, Bool, Option, none, some, present, truthy, strip, keep_if, or_text, if◌then◌else◌,
}
use gb_automations.Queue.Outcome.{mark_done, mark_failed}
use gb_automations.Schema.{
  TaskType, label_sync, nas_folder_sync, task_folder_sync, frame_project_sync,
  frame_project_status_sync, project_status_dispatch, send_faktura, graduate_faktura,
  toggl_project_sync, toggl_hours_sync, frame_leveranse_sync, frame_comment_sync,
  frame_version_sync, frame_file_status_sync, oppgave_done_sync, leveranse_status_recheck,
}
use gb_automations.Mirror
use gb_automations.Mirror.{Settings}
use gb_automations.Worker.Engines.{
  Engines, Attempt, returned, raised, ThreadReport, describe_error, join,
}
use gb_automations.Worker.Exec.{Exec, pure, ◌>>=◌, ◌>>◌}
use gb_automations.Worker.ProjectTasks.{
  process_label_sync, process_nas_folder_sync, process_frame_project_sync,
  process_frame_project_status_sync, process_project_status_dispatch, process_graduate_faktura,
  process_send_faktura, process_toggl_project_sync, process_toggl_hours_sync,
}
use gb_automations.Worker.PageTasks.{
  process_task_folder_sync, process_frame_leveranse_sync, process_frame_comment_sync,
  process_frame_version_sync, process_frame_file_status_sync, process_oppgave_done_sync,
  process_leveranse_status_recheck,
}
use gb_automations.Worker.World.{
  World, Claimed, await, to_mirror, transact, refresh_dot, persist_project, max_attempts,
  base_backoff_seconds,
}

-- The entries that are not empty, joined; a run with no such entry succeeded.
unfoldable pub thread_error : Attempt ThreadReport → Option String
thread_error (returned r) =
    let text = join "; " (keep_if truthy r.errors) in if truthy text then some text else none
thread_error (raised e) = some (describe_error e)

-- (getattr(result, "thread_subject", None) or "").strip()
unfoldable pub settled_subject : Attempt ThreadReport → String
settled_subject (returned r) = strip (or_text r.thread_subject "")
settled_subject (raised e) = strip ""

unfoldable pub thread_result : Attempt ThreadReport → Option (Option String × Option String)
thread_result (returned r) = some (r.project_name, r.thread_subject)
thread_result (raised e) = none

-- resolved_project or getattr(result, "project_page_id", None)
unfoldable pub settled_project : Option String → Attempt ThreadReport → Option String
settled_project resolved (returned r) = if present resolved then resolved else r.project_page_id
settled_project resolved (raised e) = if present resolved then resolved else none

module _ (settings : Settings) (engines : Engines) (progress : String) where
  open engines use {sync_thread, rebuild_thread}

  unfoldable pub show_resolved : Option String → String → Exec World (Unit {0})
  show_resolved project subject =
      if present project then refresh_dot settings project progress subject else pure tt

  -- `_on_resolved`; it returns the resolved project.
  unfoldable pub on_resolved :
      Claimed → Option (String × Option String) → Exec World (Option String)
  unfolding show_resolved
  on_resolved claimed none = pure none
  on_resolved claimed (some (subject, project)) = do
    to_mirror (λ _. Mirror.mark_processing settings claimed.gmail_thread_id subject none)
    persist_project claimed.id project
    show_resolved project subject
    pure project

  unfoldable pub show_failure :
      Bool → String → String → Attempt ThreadReport → Exec World (Unit {0})
  show_failure terminal thread_id error outcome =
      if terminal
      then to_mirror
          (λ _. Mirror.mark_failed settings thread_id thread_id error (thread_result outcome))
      else pure tt

  unfoldable pub settle_thread :
      Claimed → Attempt ThreadReport → Option String → Exec World (Unit {0})
  unfolding show_failure
  settle_thread claimed outcome none = do
    transact (λ now. mark_done now claimed.id)
    to_mirror (λ _. Mirror.remove settings claimed.gmail_thread_id)
  settle_thread claimed outcome (some error) = do
    terminal ←
        transact (λ now.
          mark_failed now claimed.id claimed.attempts error max_attempts base_backoff_seconds)
    show_failure terminal claimed.gmail_thread_id error outcome

  unfoldable pub process_thread : Claimed → Exec World (Unit {0})
  process_thread claimed = do
    let thread_id = claimed.gmail_thread_id
    let thread_run =
        if claimed.rebuild
        then rebuild_thread thread_id claimed.user_email
        else sync_thread claimed.user_email thread_id
    to_mirror (λ _. Mirror.mark_processing settings thread_id thread_id none)
    resolved ← on_resolved claimed thread_run.resolved
    outcome ← await thread_run.run
    settle_thread claimed outcome (thread_error outcome)
    refresh_dot settings (settled_project resolved outcome) progress (settled_subject outcome)

  -- The chain of tests of `_process`; a type that it does not name goes the way of a thread.
  unfoldable pub handler : TaskType → Claimed → Exec World (Unit {0})
  handler label_sync = process_label_sync settings engines progress
  handler nas_folder_sync = process_nas_folder_sync settings engines progress
  handler task_folder_sync = process_task_folder_sync settings engines progress
  handler frame_project_sync = process_frame_project_sync settings engines progress
  handler frame_project_status_sync = process_frame_project_status_sync settings engines progress
  handler project_status_dispatch = process_project_status_dispatch settings engines progress
  handler send_faktura = process_send_faktura settings engines progress
  handler graduate_faktura = process_graduate_faktura settings engines progress
  handler toggl_project_sync = process_toggl_project_sync settings engines progress
  handler toggl_hours_sync = process_toggl_hours_sync settings engines progress
  handler frame_leveranse_sync = process_frame_leveranse_sync settings engines progress
  handler frame_comment_sync = process_frame_comment_sync settings engines progress
  handler frame_version_sync = process_frame_version_sync settings engines progress
  handler frame_file_status_sync = process_frame_file_status_sync settings engines progress
  handler oppgave_done_sync = process_oppgave_done_sync settings engines progress
  handler leveranse_status_recheck = process_leveranse_status_recheck settings engines progress
  handler _ = process_thread

  unfoldable pub process : Claimed → Exec World (Unit {0})
  process claimed = handler claimed.task_type claimed
