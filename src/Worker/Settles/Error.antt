-- ===== src/Worker/Settles/Error.antt =====
-- The outcome error of a task, by what its engine says.
use gb_automations.Base.{String, Option, some, truthy, if◌then◌else◌}
use gb_automations.Schema.{
  TaskType, label_sync, nas_folder_sync, task_folder_sync, frame_project_sync,
  frame_project_status_sync, project_status_dispatch, send_faktura, graduate_faktura,
  toggl_project_sync, toggl_hours_sync, frame_leveranse_sync, frame_comment_sync,
  frame_version_sync, frame_file_status_sync, oppgave_done_sync, leveranse_status_recheck,
}
use gb_automations.Worker.Engines.{Engines, ThreadRun}
use gb_automations.Worker.World.{Claimed, require_page}
use gb_automations.Worker.ProjectTasks.{report_error, label_error, summary_error, faktura_page}
use gb_automations.Worker.PageTasks.{page_error}
use gb_automations.Worker.ThreadTask.{thread_error}

module _ (engines : Engines) where
  open engines use {
    sync_project_labels, sync_nas_folder, sync_frame_project, sync_frame_project_status,
    dispatch_project_status, graduate_project, create_fiken_invoice, sync_toggl_project,
    sync_toggl_hours, sync_task_folder, sync_frame_leveranse, sync_frame_comment,
    sync_frame_version, sync_frame_file_status, sync_oppgave_done, recheck_leveranse_status,
    sync_thread, rebuild_thread,
  }

  unfoldable pub thread_run : Claimed → ThreadRun
  thread_run c =
      if c.rebuild
      then rebuild_thread c.gmail_thread_id c.user_email
      else sync_thread c.user_email c.gmail_thread_id

  -- What the engine of a task says: no error, or the text of one.
  unfoldable pub error_of : TaskType → Claimed → Option String
  unfolding thread_run
  error_of label_sync c =
      label_error
        (require_page c.project_page_id "label_sync task has no project_page_id"
          sync_project_labels).attempt
  error_of nas_folder_sync c =
      report_error "nas folder sync failed"
        (require_page c.project_page_id "nas_folder_sync task has no project_page_id"
          sync_nas_folder).attempt
  error_of frame_project_sync c =
      report_error "frame project sync failed"
        (require_page c.project_page_id "frame_project_sync task has no project_page_id"
          sync_frame_project).attempt
  error_of frame_project_status_sync c =
      report_error "frame project status sync failed"
        (require_page c.project_page_id "frame_project_status_sync task has no project_page_id"
          sync_frame_project_status).attempt
  error_of project_status_dispatch c =
      report_error "project status dispatch failed"
        (require_page c.project_page_id "project_status_dispatch task has no project_page_id"
          dispatch_project_status).attempt
  error_of toggl_project_sync c =
      report_error "toggl project sync failed"
        (require_page c.project_page_id "toggl_project_sync task has no project_page_id"
          sync_toggl_project).attempt
  error_of graduate_faktura c =
      summary_error
        (require_page (faktura_page c) "graduate_faktura task has no project_page_id"
          graduate_project).attempt
  error_of send_faktura c =
      report_error "send_faktura: invoice creation failed"
        (require_page (faktura_page c) "send_faktura task has no project_page_id"
          create_fiken_invoice).attempt
  error_of toggl_hours_sync c = report_error "toggl hours sync failed" sync_toggl_hours.attempt
  error_of task_folder_sync c =
      page_error "task folder sync failed"
        (require_page (some c.gmail_thread_id)
          "task_folder_sync task has no task page id (gmail_thread_id)" sync_task_folder).attempt
  error_of frame_leveranse_sync c =
      page_error "frame leveranse sync failed"
        (require_page (some c.gmail_thread_id)
          "frame_leveranse_sync task has no leveranse page id (gmail_thread_id)"
          sync_frame_leveranse).attempt
  error_of frame_comment_sync c =
      page_error "frame comment sync failed"
        (require_page (some c.gmail_thread_id)
          "frame_comment_sync task has no comment id (gmail_thread_id)" sync_frame_comment).attempt
  error_of frame_version_sync c =
      page_error "frame version sync failed"
        (require_page (some c.gmail_thread_id)
          "frame_version_sync task has no stack id (gmail_thread_id)" sync_frame_version).attempt
  error_of frame_file_status_sync c =
      page_error "frame file status sync failed"
        (require_page (some c.gmail_thread_id)
          "frame_file_status_sync task has no leveranse page id (gmail_thread_id)"
          (λ page.
            sync_frame_file_status page
              (if truthy c.user_email then c.user_email else "notion"))).attempt
  error_of oppgave_done_sync c =
      page_error "oppgave done sync failed"
        (require_page (some c.gmail_thread_id)
          "oppgave_done_sync task has no Oppgave page id (gmail_thread_id)"
          sync_oppgave_done).attempt
  error_of leveranse_status_recheck c =
      report_error "leveranse status recheck failed"
        (require_page (some c.gmail_thread_id)
          "leveranse_status_recheck task has no Leveranse page id (gmail_thread_id)"
          recheck_leveranse_status).attempt
  error_of _ c = thread_error (thread_run c).run.attempt
