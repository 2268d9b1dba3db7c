-- ===== src/Worker/PageTasks.antt =====
-- The tasks of one page, comment or stack (jobs/queue_worker.py), which find out their project on
-- the way.
use gb_automations.Base.{String, Option, none, some, truthy, if◌then◌else◌}
use gb_automations.Mirror.{Settings}
use gb_automations.Worker.Engines.{Engines, Attempt, returned, raised, PageReport}
use gb_automations.Worker.Exec.{Exec, ◌>>=◌, ◌>>◌}
use gb_automations.Worker.ProjectTasks.{report_error}
use gb_automations.Worker.World.{
  World, Claimed, await, require_page, dot_in_progress, record_outcome, persist_project,
  resolve_project_from_leveranse,
}

unfoldable pub page_error : String → Attempt PageReport → Option String
unfolding report_error
page_error text (returned r) = report_error text (returned r.report)
page_error text (raised e) = report_error text (raised e)

-- The page that the result carries; None after an exception.
unfoldable pub reported_page : Attempt PageReport → Option String
reported_page (returned r) = r.page
reported_page (raised e) = none

module _ (settings : Settings) (engines : Engines) (progress : String) where
  open engines use {
    sync_task_folder, sync_frame_leveranse, sync_frame_comment, sync_frame_version,
    sync_frame_file_status, sync_oppgave_done, recheck_leveranse_status,
  }

  -- The resolved project is shown, and not written on the row.
  unfoldable pub process_task_folder_sync : Claimed → Exec World (Unit {0})
  process_task_folder_sync claimed = do
    outcome ← await (
        require_page (some claimed.gmail_thread_id)
          "task_folder_sync task has no task page id (gmail_thread_id)" sync_task_folder)
    let project = reported_page outcome
    dot_in_progress settings project progress "Task folder"
    record_outcome claimed.id claimed.attempts (page_error "task folder sync failed" outcome)
    dot_in_progress settings project progress "Task folder"

  unfoldable pub process_frame_leveranse_sync : Claimed → Exec World (Unit {0})
  process_frame_leveranse_sync claimed = do
    outcome ← await (
        require_page (some claimed.gmail_thread_id)
          "frame_leveranse_sync task has no leveranse page id (gmail_thread_id)"
          sync_frame_leveranse)
    let project = reported_page outcome
    persist_project claimed.id project
    dot_in_progress settings project progress "Frame.io deliverable"
    record_outcome claimed.id claimed.attempts (page_error "frame leveranse sync failed" outcome)
    dot_in_progress settings project progress "Frame.io deliverable"

  unfoldable pub process_frame_comment_sync : Claimed → Exec World (Unit {0})
  process_frame_comment_sync claimed = do
    outcome ← await (
        require_page (some claimed.gmail_thread_id)
          "frame_comment_sync task has no comment id (gmail_thread_id)" sync_frame_comment)
    let project = reported_page outcome
    persist_project claimed.id project
    dot_in_progress settings project progress "Frame comment"
    record_outcome claimed.id claimed.attempts (page_error "frame comment sync failed" outcome)
    dot_in_progress settings project progress "Frame comment"

  unfoldable pub process_frame_version_sync : Claimed → Exec World (Unit {0})
  process_frame_version_sync claimed = do
    outcome ← await (
        require_page (some claimed.gmail_thread_id)
          "frame_version_sync task has no stack id (gmail_thread_id)" sync_frame_version)
    let project = reported_page outcome
    persist_project claimed.id project
    dot_in_progress settings project progress "Frame version"
    record_outcome claimed.id claimed.attempts (page_error "frame version sync failed" outcome)
    dot_in_progress settings project progress "Frame version"

  unfoldable pub process_frame_file_status_sync : Claimed → Exec World (Unit {0})
  process_frame_file_status_sync claimed = do
    let source = if truthy claimed.user_email then claimed.user_email else "notion"
    outcome ← await (
        require_page (some claimed.gmail_thread_id)
          "frame_file_status_sync task has no leveranse page id (gmail_thread_id)"
          (λ page. sync_frame_file_status page source))
    let project = reported_page outcome
    persist_project claimed.id project
    dot_in_progress settings project progress "Frame status"
    record_outcome claimed.id claimed.attempts (page_error "frame file status sync failed" outcome)
    dot_in_progress settings project progress "Frame status"

  unfoldable pub process_oppgave_done_sync : Claimed → Exec World (Unit {0})
  process_oppgave_done_sync claimed = do
    outcome ← await (
        require_page (some claimed.gmail_thread_id)
          "oppgave_done_sync task has no Oppgave page id (gmail_thread_id)" sync_oppgave_done)
    let project = resolve_project_from_leveranse engines (reported_page outcome)
    persist_project claimed.id project
    dot_in_progress settings project progress "Oppgave done"
    record_outcome claimed.id claimed.attempts (page_error "oppgave done sync failed" outcome)
    dot_in_progress settings project progress "Oppgave done"

  unfoldable pub process_leveranse_status_recheck : Claimed → Exec World (Unit {0})
  process_leveranse_status_recheck claimed = do
    outcome ← await (
        require_page (some claimed.gmail_thread_id)
          "leveranse_status_recheck task has no Leveranse page id (gmail_thread_id)"
          recheck_leveranse_status)
    let project = resolve_project_from_leveranse engines (some claimed.gmail_thread_id)
    persist_project claimed.id project
    dot_in_progress settings project progress "Status recheck"
    record_outcome claimed.id claimed.attempts
        (report_error "leveranse status recheck failed" outcome)
    dot_in_progress settings project progress "Status recheck"
