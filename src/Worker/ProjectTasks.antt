-- ===== src/Worker/ProjectTasks.antt =====
-- The tasks of one project (jobs/queue_worker.py): each shows its subject, runs its engine, records
-- the outcome and shows the state that is left.
use gb_automations.Base.{
  String, ◌<>◌, Option, none, some, List, [], ◌∷◌, present, or_text, if◌then◌else◌,
}
use gb_automations.Mirror.{Settings}
use gb_automations.Worker.Engines.{Engines, Attempt, returned, raised, Report, describe_error, join}
use gb_automations.Worker.Exec.{Exec, pure, ◌>>=◌, ◌>>◌}
use gb_automations.Worker.World.{World, Claimed, await, require_page, refresh_dot, record_outcome}

-- The outcome error of a run that reports `action` and `note`.
unfoldable pub report_error : String → Attempt Report → Option String
report_error text (returned r) = if r.failed then some (or_text r.note text) else none
report_error text (raised e) = some (describe_error e)

-- A mailbox that failed fails the task.
unfoldable pub label_error : Attempt (List String) → Option String
label_error (returned []) = none
label_error (returned (m ∷ ms)) = some ("label sync failed in mailbox(es): " <> join ", " (m ∷ ms))
label_error (raised e) = some (describe_error e)

-- `summary.error`, which counts where it is not empty
unfoldable pub summary_error : Attempt (Option String) → Option String
summary_error (returned none) = none
summary_error (returned (some e)) = if present (some e) then some e else none
summary_error (raised e) = some (describe_error e)

-- claimed.project_page_id or claimed.gmail_thread_id
unfoldable pub faktura_page : Claimed → Option String
faktura_page claimed = some (or_text claimed.project_page_id claimed.gmail_thread_id)

module _ (settings : Settings) (engines : Engines) (progress : String) where
  open engines use {
    sync_project_labels, sync_nas_folder, sync_frame_project, sync_frame_project_status,
    dispatch_project_status, graduate_project, create_fiken_invoice, sync_toggl_project,
    sync_toggl_hours,
  }

  unfoldable pub process_label_sync : Claimed → Exec World (Unit {0})
  process_label_sync claimed = do
    let page = claimed.project_page_id
    refresh_dot settings page progress "Gmail labels"
    outcome ← await (require_page page "label_sync task has no project_page_id" sync_project_labels)
    record_outcome claimed.id claimed.attempts (label_error outcome)
    refresh_dot settings page progress "Gmail labels"

  unfoldable pub process_nas_folder_sync : Claimed → Exec World (Unit {0})
  process_nas_folder_sync claimed = do
    let page = claimed.project_page_id
    refresh_dot settings page progress "NAS folder"
    outcome ←
        await (require_page page "nas_folder_sync task has no project_page_id" sync_nas_folder)
    record_outcome claimed.id claimed.attempts (report_error "nas folder sync failed" outcome)
    refresh_dot settings page progress "NAS folder"

  unfoldable pub process_frame_project_sync : Claimed → Exec World (Unit {0})
  process_frame_project_sync claimed = do
    let page = claimed.project_page_id
    refresh_dot settings page progress "Frame.io folder"
    outcome ←
        await
          (require_page page "frame_project_sync task has no project_page_id" sync_frame_project)
    record_outcome claimed.id claimed.attempts (report_error "frame project sync failed" outcome)
    refresh_dot settings page progress "Frame.io folder"

  unfoldable pub process_frame_project_status_sync : Claimed → Exec World (Unit {0})
  process_frame_project_status_sync claimed = do
    let page = claimed.project_page_id
    refresh_dot settings page progress "Frame.io status"
    outcome ← await (
        require_page page "frame_project_status_sync task has no project_page_id"
          sync_frame_project_status)
    record_outcome claimed.id claimed.attempts
        (report_error "frame project status sync failed" outcome)
    refresh_dot settings page progress "Frame.io status"

  unfoldable pub process_project_status_dispatch : Claimed → Exec World (Unit {0})
  process_project_status_dispatch claimed = do
    let page = claimed.project_page_id
    refresh_dot settings page progress "Status dispatch"
    outcome ← await (
        require_page page "project_status_dispatch task has no project_page_id"
          dispatch_project_status)
    record_outcome claimed.id claimed.attempts
        (report_error "project status dispatch failed" outcome)
    refresh_dot settings page progress "Status dispatch"

  unfoldable pub process_toggl_project_sync : Claimed → Exec World (Unit {0})
  process_toggl_project_sync claimed = do
    let page = claimed.project_page_id
    refresh_dot settings page progress "Toggl project"
    outcome ←
        await
          (require_page page "toggl_project_sync task has no project_page_id" sync_toggl_project)
    record_outcome claimed.id claimed.attempts (report_error "toggl project sync failed" outcome)
    refresh_dot settings page progress "Toggl project"

  unfoldable pub process_graduate_faktura : Claimed → Exec World (Unit {0})
  process_graduate_faktura claimed = do
    let page = faktura_page claimed
    refresh_dot settings page progress "Sjekk fiken"
    outcome ←
        await (require_page page "graduate_faktura task has no project_page_id" graduate_project)
    record_outcome claimed.id claimed.attempts (summary_error outcome)
    refresh_dot settings page progress "Sjekk fiken"

  unfoldable pub process_send_faktura : Claimed → Exec World (Unit {0})
  process_send_faktura claimed = do
    let page = faktura_page claimed
    refresh_dot settings page progress "Send faktura draft"
    outcome ←
        await (require_page page "send_faktura task has no project_page_id" create_fiken_invoice)
    record_outcome claimed.id claimed.attempts
        (report_error "send_faktura: invoice creation failed" outcome)
    refresh_dot settings page progress "Send faktura draft"

  unfoldable pub process_toggl_hours_sync : Claimed → Exec World (Unit {0})
  process_toggl_hours_sync claimed = do
    outcome ← await sync_toggl_hours
    record_outcome claimed.id claimed.attempts (report_error "toggl hours sync failed" outcome)
    pure tt
