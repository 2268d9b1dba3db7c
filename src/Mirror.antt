-- ===== src/Mirror.antt =====
-- sync/queue_mirror.py: the view of the queue in Notion. Every function swallows what the Notion
-- client raises, so a call is modelled by the request that it makes, if it makes one.
pub mod Bounds
use gb_automations.Base.{
  String, ◌<>◌, Bool, Option, none, some, List, [], ◌∷◌, ltb, chars, take_chars, truthy, strip,
  or_text, if◌then◌else◌, ◌&&◌,
}
use gb_automations.Schema.{SyncTask}
use gb_automations.Queue.Rollup.{ProjectState, idle, project_sync_state}

-- bool(settings.sync_queue_db_id), bool(settings.projects_sync_status)
pub record Settings : Type 0 where
  pub queue_enabled : Bool
  pub dot_enabled : Bool

-- SYNC_QUEUE_STATUS_*
pub data RowStatus : Type 0 where
  queued processing failed_row : RowStatus

-- What a PATCH does to the "Sync progress" field: None clears it, a text is written, and the
-- sentinel _PROGRESS_UNCHANGED leaves it out.
pub data Progress : Type 0 where
  clear unchanged : Progress
  write : String → Progress

-- The requests to the Notion client.
pub data Patch : Type 0 where
  -- set_project_sync_state(page, status_option, progress); the option is named by its state, of
  -- which PROJECT_SYNC_OPTION gives the icon
  set_state : String → ProjectState → Progress → Patch
  -- upsert_sync_queue_row(thread_id, subject, status, project, error)
  upsert_row : String → String → RowStatus → Option String → Option String → Patch
  -- remove_sync_queue_row(thread_id)
  remove_row : String → Patch

-- The text of a subject in the field: at most 78 characters.
unfoldable pub clean_subject : String → String
clean_subject subject =
    let clean = strip subject in if ltb 80 (chars clean) then take_chars 77 clean <> "…" else clean

unfoldable pub progress_arg : ProjectState → Option String → Option String → Progress
unfolding clean_subject
progress_arg idle progress subject = clear
progress_arg _ none subject = unchanged
progress_arg _ (some progress) none = write progress
progress_arg _ (some progress) (some subject) =
    if truthy subject then write (progress <> " - " <> clean_subject subject) else write progress

unfoldable pub refresh_project_dot :
    Settings → List SyncTask → Option String → Option String → Option String → List Patch
unfolding progress_arg
refresh_project_dot settings rows none progress subject = []
refresh_project_dot settings rows (some page) progress subject =
    if settings.dot_enabled && truthy page
    then (let state = project_sync_state page rows in
        set_state page state (progress_arg state progress subject) ∷ [])
    else []

unfoldable pub mark_queued : Settings → String → String → Option String → List Patch
mark_queued settings thread_id subject project =
    if settings.queue_enabled then upsert_row thread_id subject queued project none ∷ [] else []

unfoldable pub mark_processing : Settings → String → String → Option String → List Patch
mark_processing settings thread_id subject project =
    if settings.queue_enabled then upsert_row thread_id subject processing project none ∷ [] else []

-- `result`, if there is one, gives its project name and its subject.
unfoldable pub mark_failed :
    Settings → String → String → String → Option (Option String × Option String) → List Patch
mark_failed settings thread_id subject error none =
    if settings.queue_enabled
    then upsert_row thread_id subject failed_row none (some error) ∷ []
    else []
mark_failed settings thread_id subject error (some (project_name, thread_subject)) =
    if settings.queue_enabled
    then upsert_row thread_id (or_text thread_subject subject) failed_row project_name (some error)
      ∷ []
    else []

unfoldable pub remove : Settings → String → List Patch
remove settings thread_id = if settings.queue_enabled then remove_row thread_id ∷ [] else []
