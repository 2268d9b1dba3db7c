-- ===== src/Queue/Enqueue.antt =====
-- queue.py: the functions that put work on the queue. Each is one INSERT … ON CONFLICT DO NOTHING
-- in a transaction of its own, and returns the number of rows it added.
use gb_automations.Base.{
  ℕ, ◌+◌, String, Bool, false, Option, none, some, List, [], ◌∷◌, Tx, pure, ◌>>=◌, truthy,
  if◌then◌else◌, sorted_set,
}
use gb_automations.Schema.{
  SyncTask, Db, TaskType, user_and_thread, thread_column, project_column, thread, pending,
  insert_or_skip, label_sync, nas_folder_sync, task_folder_sync, frame_project_sync,
  frame_project_status_sync, project_status_dispatch, toggl_project_sync, toggl_hours_sync,
  frame_leveranse_sync, frame_comment_sync, frame_version_sync, oppgave_done_sync,
  leveranse_status_recheck, frame_file_status_sync, send_faktura, graduate_faktura, fiken_poll,
}

abbrev pub toggl_hours_singleton_key : String
toggl_hours_singleton_key = "toggl-hours-singleton"

abbrev pub fiken_poll_singleton_key : String
fiken_poll_singleton_key = "fiken-poll-singleton"

-- A row with the columns that an INSERT names, and the server's defaults for the others. The
-- primary key is drawn at the insert.
abbrev pub new_task : ℕ → TaskType → String → String → Option String → Bool → SyncTask
new_task now task_type user_email gmail_thread_id project_page_id rebuild = record {
  id = 0;
  task_type = task_type;
  user_email = user_email;
  gmail_thread_id = gmail_thread_id;
  status = pending;
  rebuild = rebuild;
  project_page_id = project_page_id;
  attempts = 0;
  last_error = none;
  enqueued_at = now;
  started_at = none;
  finished_at = none;
  next_attempt_at = now;
  updated_at = now;
}

-- The rows of one INSERT with several VALUES, in their order.
unfoldable pub insert_threads : ℕ → String → Bool → List String → Tx Db ℕ
insert_threads now user_email rebuild [] = pure 0
insert_threads now user_email rebuild (tid ∷ ids) = do
  n ← insert_or_skip user_and_thread (new_task now thread user_email tid none rebuild)
  m ← insert_threads now user_email rebuild ids
  pure (n + m)

unfoldable pub enqueue_threads : ℕ → String → List String → Bool → Tx Db ℕ
enqueue_threads now user_email thread_ids rebuild =
    insert_threads now user_email rebuild (sorted_set thread_ids)

unfoldable pub enqueue_label_sync : ℕ → String → Tx Db ℕ
enqueue_label_sync now project_page_id =
    if truthy project_page_id
    then insert_or_skip project_column
        (new_task now label_sync "*" project_page_id (some project_page_id) false)
    else pure 0

unfoldable pub enqueue_nas_folder_sync : ℕ → String → Tx Db ℕ
enqueue_nas_folder_sync now project_page_id =
    if truthy project_page_id
    then insert_or_skip project_column
        (new_task now nas_folder_sync "*" project_page_id (some project_page_id) false)
    else pure 0

unfoldable pub enqueue_task_folder_sync : ℕ → String → Tx Db ℕ
enqueue_task_folder_sync now task_page_id =
    if truthy task_page_id
    then insert_or_skip thread_column (new_task now task_folder_sync "*" task_page_id none false)
    else pure 0

unfoldable pub enqueue_frame_project_sync : ℕ → String → Tx Db ℕ
enqueue_frame_project_sync now project_page_id =
    if truthy project_page_id
    then insert_or_skip project_column
        (new_task now frame_project_sync "*" project_page_id (some project_page_id) false)
    else pure 0

unfoldable pub enqueue_frame_project_status_sync : ℕ → String → Tx Db ℕ
enqueue_frame_project_status_sync now project_page_id =
    if truthy project_page_id
    then insert_or_skip project_column
        (new_task now frame_project_status_sync "*" project_page_id (some project_page_id) false)
    else pure 0

unfoldable pub enqueue_project_status_dispatch : ℕ → String → Tx Db ℕ
enqueue_project_status_dispatch now project_page_id =
    if truthy project_page_id
    then insert_or_skip project_column
        (new_task now project_status_dispatch "*" project_page_id (some project_page_id) false)
    else pure 0

unfoldable pub enqueue_toggl_project_sync : ℕ → String → Tx Db ℕ
enqueue_toggl_project_sync now project_page_id =
    if truthy project_page_id
    then insert_or_skip project_column
        (new_task now toggl_project_sync "*" project_page_id (some project_page_id) false)
    else pure 0

unfoldable pub enqueue_toggl_hours_sync : ℕ → Tx Db ℕ
enqueue_toggl_hours_sync now =
    insert_or_skip thread_column
      (new_task now toggl_hours_sync "*" toggl_hours_singleton_key none false)

unfoldable pub enqueue_frame_leveranse_sync : ℕ → String → Tx Db ℕ
enqueue_frame_leveranse_sync now leveranse_page_id =
    if truthy leveranse_page_id
    then insert_or_skip thread_column
        (new_task now frame_leveranse_sync "*" leveranse_page_id none false)
    else pure 0

unfoldable pub enqueue_frame_comment_sync : ℕ → String → Tx Db ℕ
enqueue_frame_comment_sync now comment_id =
    if truthy comment_id
    then insert_or_skip thread_column (new_task now frame_comment_sync "*" comment_id none false)
    else pure 0

unfoldable pub enqueue_frame_version_sync : ℕ → String → Tx Db ℕ
enqueue_frame_version_sync now stack_id =
    if truthy stack_id
    then insert_or_skip thread_column (new_task now frame_version_sync "*" stack_id none false)
    else pure 0

unfoldable pub enqueue_oppgave_done_sync : ℕ → String → Tx Db ℕ
enqueue_oppgave_done_sync now oppgave_page_id =
    if truthy oppgave_page_id
    then insert_or_skip thread_column
        (new_task now oppgave_done_sync "*" oppgave_page_id none false)
    else pure 0

unfoldable pub enqueue_leveranse_status_recheck : ℕ → String → Tx Db ℕ
enqueue_leveranse_status_recheck now leveranse_page_id =
    if truthy leveranse_page_id
    then insert_or_skip thread_column
        (new_task now leveranse_status_recheck "*" leveranse_page_id none false)
    else pure 0

unfoldable pub enqueue_frame_file_status_sync : ℕ → String → String → Tx Db ℕ
enqueue_frame_file_status_sync now leveranse_page_id source =
    if truthy leveranse_page_id
    then insert_or_skip thread_column
        (new_task now frame_file_status_sync source leveranse_page_id none false)
    else pure 0

unfoldable pub enqueue_send_faktura : ℕ → String → Tx Db ℕ
enqueue_send_faktura now project_page_id =
    if truthy project_page_id
    then insert_or_skip thread_column
        (new_task now send_faktura "*" project_page_id (some project_page_id) false)
    else pure 0

unfoldable pub enqueue_graduate_faktura : ℕ → String → Tx Db ℕ
enqueue_graduate_faktura now project_page_id =
    if truthy project_page_id
    then insert_or_skip thread_column
        (new_task now graduate_faktura "*" project_page_id (some project_page_id) false)
    else pure 0

unfoldable pub enqueue_fiken_poll : ℕ → Tx Db ℕ
enqueue_fiken_poll now =
    insert_or_skip thread_column (new_task now fiken_poll "*" fiken_poll_singleton_key none false)
