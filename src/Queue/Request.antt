-- ===== src/Queue/Request.antt =====
-- The seventeen calls that enqueue one page, stack, comment or singleton, as data, and what each
-- asks of the table.
use gb_automations.Base.{
  ℕ, String, Bool, true, false, none, some, Tx, pure, truthy, ◌≡◌, refl, if◌then◌else◌,
}
use gb_automations.Schema.{
  SyncTask, Db, KeyColumns, thread_column, project_column, insert_or_skip, label_sync,
  nas_folder_sync, task_folder_sync, frame_project_sync, frame_project_status_sync,
  project_status_dispatch, toggl_project_sync, toggl_hours_sync, frame_leveranse_sync,
  frame_comment_sync, frame_version_sync, oppgave_done_sync, leveranse_status_recheck,
  frame_file_status_sync, send_faktura, graduate_faktura, fiken_poll,
}
use gb_automations.Queue.Enqueue.{
  new_task, toggl_hours_singleton_key, fiken_poll_singleton_key, enqueue_label_sync,
  enqueue_nas_folder_sync, enqueue_task_folder_sync, enqueue_frame_project_sync,
  enqueue_frame_project_status_sync, enqueue_project_status_dispatch, enqueue_toggl_project_sync,
  enqueue_toggl_hours_sync, enqueue_frame_leveranse_sync, enqueue_frame_comment_sync,
  enqueue_frame_version_sync, enqueue_oppgave_done_sync, enqueue_leveranse_status_recheck,
  enqueue_frame_file_status_sync, enqueue_send_faktura, enqueue_graduate_faktura,
  enqueue_fiken_poll,
}

pub data Request : Type 0 where
  for_label_sync : String → Request
  for_nas_folder_sync : String → Request
  for_task_folder_sync : String → Request
  for_frame_project_sync : String → Request
  for_frame_project_status_sync : String → Request
  for_project_status_dispatch : String → Request
  for_toggl_project_sync : String → Request
  for_toggl_hours_sync : Request
  for_frame_leveranse_sync : String → Request
  for_frame_comment_sync : String → Request
  for_frame_version_sync : String → Request
  for_oppgave_done_sync : String → Request
  for_leveranse_status_recheck : String → Request
  for_frame_file_status_sync : String → String → Request
  for_send_faktura : String → Request
  for_graduate_faktura : String → Request
  for_fiken_poll : Request

unfoldable pub enqueue : ℕ → Request → Tx Db ℕ
enqueue now (for_label_sync project_page_id) = enqueue_label_sync now project_page_id
enqueue now (for_nas_folder_sync project_page_id) = enqueue_nas_folder_sync now project_page_id
enqueue now (for_task_folder_sync task_page_id) = enqueue_task_folder_sync now task_page_id
enqueue now (for_frame_project_sync project_page_id) =
    enqueue_frame_project_sync now project_page_id
enqueue now (for_frame_project_status_sync project_page_id) =
    enqueue_frame_project_status_sync now project_page_id
enqueue now (for_project_status_dispatch project_page_id) =
    enqueue_project_status_dispatch now project_page_id
enqueue now (for_toggl_project_sync project_page_id) =
    enqueue_toggl_project_sync now project_page_id
enqueue now for_toggl_hours_sync = enqueue_toggl_hours_sync now
enqueue now (for_frame_leveranse_sync leveranse_page_id) =
    enqueue_frame_leveranse_sync now leveranse_page_id
enqueue now (for_frame_comment_sync comment_id) = enqueue_frame_comment_sync now comment_id
enqueue now (for_frame_version_sync stack_id) = enqueue_frame_version_sync now stack_id
enqueue now (for_oppgave_done_sync oppgave_page_id) = enqueue_oppgave_done_sync now oppgave_page_id
enqueue now (for_leveranse_status_recheck leveranse_page_id) =
    enqueue_leveranse_status_recheck now leveranse_page_id
enqueue now (for_frame_file_status_sync leveranse_page_id source) =
    enqueue_frame_file_status_sync now leveranse_page_id source
enqueue now (for_send_faktura project_page_id) = enqueue_send_faktura now project_page_id
enqueue now (for_graduate_faktura project_page_id) = enqueue_graduate_faktura now project_page_id
enqueue now for_fiken_poll = enqueue_fiken_poll now

-- The description that the calls are compared with: the row that a call would add.
unfoldable pub row : ℕ → Request → SyncTask
row now (for_label_sync project_page_id) =
    new_task now label_sync "*" project_page_id (some project_page_id) false
row now (for_nas_folder_sync project_page_id) =
    new_task now nas_folder_sync "*" project_page_id (some project_page_id) false
row now (for_task_folder_sync task_page_id) =
    new_task now task_folder_sync "*" task_page_id none false
row now (for_frame_project_sync project_page_id) =
    new_task now frame_project_sync "*" project_page_id (some project_page_id) false
row now (for_frame_project_status_sync project_page_id) =
    new_task now frame_project_status_sync "*" project_page_id (some project_page_id) false
row now (for_project_status_dispatch project_page_id) =
    new_task now project_status_dispatch "*" project_page_id (some project_page_id) false
row now (for_toggl_project_sync project_page_id) =
    new_task now toggl_project_sync "*" project_page_id (some project_page_id) false
row now for_toggl_hours_sync =
    new_task now toggl_hours_sync "*" toggl_hours_singleton_key none false
row now (for_frame_leveranse_sync leveranse_page_id) =
    new_task now frame_leveranse_sync "*" leveranse_page_id none false
row now (for_frame_comment_sync comment_id) =
    new_task now frame_comment_sync "*" comment_id none false
row now (for_frame_version_sync stack_id) = new_task now frame_version_sync "*" stack_id none false
row now (for_oppgave_done_sync oppgave_page_id) =
    new_task now oppgave_done_sync "*" oppgave_page_id none false
row now (for_leveranse_status_recheck leveranse_page_id) =
    new_task now leveranse_status_recheck "*" leveranse_page_id none false
row now (for_frame_file_status_sync leveranse_page_id source) =
    new_task now frame_file_status_sync source leveranse_page_id none false
row now (for_send_faktura project_page_id) =
    new_task now send_faktura "*" project_page_id (some project_page_id) false
row now (for_graduate_faktura project_page_id) =
    new_task now graduate_faktura "*" project_page_id (some project_page_id) false
row now for_fiken_poll = new_task now fiken_poll "*" fiken_poll_singleton_key none false

-- The columns by which the call asks for a duplicate.
unfoldable pub columns : Request → KeyColumns
columns (for_label_sync _) = project_column
columns (for_nas_folder_sync _) = project_column
columns (for_task_folder_sync _) = thread_column
columns (for_frame_project_sync _) = project_column
columns (for_frame_project_status_sync _) = project_column
columns (for_project_status_dispatch _) = project_column
columns (for_toggl_project_sync _) = project_column
columns for_toggl_hours_sync = thread_column
columns (for_frame_leveranse_sync _) = thread_column
columns (for_frame_comment_sync _) = thread_column
columns (for_frame_version_sync _) = thread_column
columns (for_oppgave_done_sync _) = thread_column
columns (for_leveranse_status_recheck _) = thread_column
columns (for_frame_file_status_sync _ _) = thread_column
columns (for_send_faktura _) = thread_column
columns (for_graduate_faktura _) = thread_column
columns for_fiken_poll = thread_column

-- The call has an id to enqueue.
unfoldable pub wanted : Request → Bool
wanted (for_label_sync project_page_id) = truthy project_page_id
wanted (for_nas_folder_sync project_page_id) = truthy project_page_id
wanted (for_task_folder_sync task_page_id) = truthy task_page_id
wanted (for_frame_project_sync project_page_id) = truthy project_page_id
wanted (for_frame_project_status_sync project_page_id) = truthy project_page_id
wanted (for_project_status_dispatch project_page_id) = truthy project_page_id
wanted (for_toggl_project_sync project_page_id) = truthy project_page_id
wanted for_toggl_hours_sync = true
wanted (for_frame_leveranse_sync leveranse_page_id) = truthy leveranse_page_id
wanted (for_frame_comment_sync comment_id) = truthy comment_id
wanted (for_frame_version_sync stack_id) = truthy stack_id
wanted (for_oppgave_done_sync oppgave_page_id) = truthy oppgave_page_id
wanted (for_leveranse_status_recheck leveranse_page_id) = truthy leveranse_page_id
wanted (for_frame_file_status_sync leveranse_page_id _) = truthy leveranse_page_id
wanted (for_send_faktura project_page_id) = truthy project_page_id
wanted (for_graduate_faktura project_page_id) = truthy project_page_id
wanted for_fiken_poll = true

pub enqueue-insert :
    (now : ℕ) (q : Request)
    → enqueue now q ≡ (if wanted q then insert_or_skip (columns q) (row now q) else pure 0)
unfolding enqueue row columns wanted enqueue_label_sync enqueue_nas_folder_sync
    enqueue_task_folder_sync enqueue_frame_project_sync enqueue_frame_project_status_sync
    enqueue_project_status_dispatch enqueue_toggl_project_sync enqueue_toggl_hours_sync
    enqueue_frame_leveranse_sync enqueue_frame_comment_sync enqueue_frame_version_sync
    enqueue_oppgave_done_sync enqueue_leveranse_status_recheck enqueue_frame_file_status_sync
    enqueue_send_faktura enqueue_graduate_faktura enqueue_fiken_poll
enqueue-insert now (for_label_sync project_page_id) = refl
enqueue-insert now (for_nas_folder_sync project_page_id) = refl
enqueue-insert now (for_task_folder_sync task_page_id) = refl
enqueue-insert now (for_frame_project_sync project_page_id) = refl
enqueue-insert now (for_frame_project_status_sync project_page_id) = refl
enqueue-insert now (for_project_status_dispatch project_page_id) = refl
enqueue-insert now (for_toggl_project_sync project_page_id) = refl
enqueue-insert now for_toggl_hours_sync = refl
enqueue-insert now (for_frame_leveranse_sync leveranse_page_id) = refl
enqueue-insert now (for_frame_comment_sync comment_id) = refl
enqueue-insert now (for_frame_version_sync stack_id) = refl
enqueue-insert now (for_oppgave_done_sync oppgave_page_id) = refl
enqueue-insert now (for_leveranse_status_recheck leveranse_page_id) = refl
enqueue-insert now (for_frame_file_status_sync leveranse_page_id source) = refl
enqueue-insert now (for_send_faktura project_page_id) = refl
enqueue-insert now (for_graduate_faktura project_page_id) = refl
enqueue-insert now for_fiken_poll = refl
