-- ===== src/Schema/Rows.antt =====
-- The rows of `sync_tasks` (models.py, SyncTask), but for the widths of its text columns, and the columns
-- of its unique indexes.
use gb_automations.Base.{
  ℕ, String, Bool, true, false, Option, none, some, List, ◌≡◌, ◌&&◌, ◌↔◌, refl, str_eq, same_text,
}

-- ck_sync_tasks_status
pub data Status : Type 0 where
  pending in_progress done failed : Status

-- ck_sync_tasks_task_type, as the newest migration has it
pub data TaskType : Type 0 where
  thread label_sync nas_folder_sync task_folder_sync frame_project_sync : TaskType
  frame_leveranse_sync frame_comment_sync frame_version_sync frame_file_status_sync : TaskType
  frame_project_status_sync oppgave_done_sync leveranse_status_recheck toggl_project_sync : TaskType
  toggl_hours_sync project_status_dispatch fiken_invoice_create send_faktura fiken_poll : TaskType
  graduate_faktura : TaskType

pub record SyncTask : Type 0 where
  pub id : ℕ
  pub task_type : TaskType
  pub user_email : String
  pub gmail_thread_id : String
  pub status : Status
  pub rebuild : Bool
  pub project_page_id : Option String
  pub attempts : ℕ
  pub last_error : Option String
  pub enqueued_at : ℕ
  pub started_at : Option ℕ
  pub finished_at : Option ℕ
  pub next_attempt_at : ℕ
  pub updated_at : ℕ

-- `next_id` is the sequence behind the autoincrement key.
pub record Db : Type 0 where
  pub rows : List SyncTask
  pub next_id : ℕ

abbrev pub is_pending : Status → Bool
is_pending pending = true
is_pending _ = false

abbrev pub is_in_progress : Status → Bool
is_in_progress in_progress = true
is_in_progress _ = false

abbrev pub is_done : Status → Bool
is_done done = true
is_done _ = false

abbrev pub is_failed : Status → Bool
is_failed failed = true
is_failed _ = false

-- status IN ('pending','in_progress')
abbrev pub is_active : Status → Bool
is_active pending = true
is_active in_progress = true
is_active done = false
is_active failed = false

TaskType-discrete : Discrete TaskType
TaskType-discrete = hlevel

unfoldable pub same_type : TaskType → TaskType → Bool
unfolding TaskType-discrete
same_type a b = elim (TaskType-discrete a b) [ yes _ ↦ true | no _ ↦ false ]

pub same_type_iff : (a b : TaskType) → (same_type a b ≡ true) ↔ (a ≡ b)
unfolding same_type
same_type_iff a b = go (TaskType-discrete a b)
  where
    go : (d : Dec (a ≡ b)) → ((elim d [ yes _ ↦ true | no _ ↦ false ]) ≡ true) ↔ (a ≡ b)
    go (yes p) = (λ _. p, λ _. refl)
    go (no n) = (λ h. cc, λ p. absurd (n p))

-- The columns of a unique index of the table.
pub data KeyColumns : Type 0 where
  -- (user_email, gmail_thread_id)
  user_and_thread : KeyColumns
  -- (gmail_thread_id)
  thread_column : KeyColumns
  -- (project_page_id)
  project_column : KeyColumns

-- The index whose predicate names the task type, as `__table_args__` declares them.
unfoldable pub model_index : TaskType → Option KeyColumns
model_index thread = some user_and_thread
model_index label_sync = some project_column
model_index nas_folder_sync = some project_column
model_index frame_project_sync = some project_column
model_index frame_project_status_sync = some project_column
model_index project_status_dispatch = some project_column
model_index frame_leveranse_sync = some thread_column
model_index frame_comment_sync = some thread_column
model_index frame_version_sync = some thread_column
model_index frame_file_status_sync = some thread_column
model_index oppgave_done_sync = some thread_column
model_index leveranse_status_recheck = some thread_column
model_index toggl_project_sync = some project_column
model_index toggl_hours_sync = some thread_column
model_index send_faktura = some thread_column
model_index fiken_poll = some thread_column
model_index _ = none

-- uq_sync_tasks_active_task_folder, which only its migration creates
task_folder_index : TaskType → Option KeyColumns
task_folder_index task_folder_sync = some thread_column
task_folder_index _ = none

-- uq_sync_tasks_active_graduate_faktura, which only its migration creates
graduate_faktura_index : TaskType → Option KeyColumns
graduate_faktura_index graduate_faktura = some thread_column
graduate_faktura_index _ = none

or_index : Option KeyColumns → Option KeyColumns → Option KeyColumns
or_index none b = b
or_index (some a) b = some a

-- The indexes of a database on which all migrations have run.
unfoldable pub live_index : TaskType → Option KeyColumns
unfolding model_index task_folder_index graduate_faktura_index or_index
live_index t = or_index (model_index t) (or_index (task_folder_index t) (graduate_faktura_index t))

-- Two rows agree on the columns of an index.
abbrev pub same_columns : KeyColumns → SyncTask → SyncTask → Bool
same_columns user_and_thread r s =
    str_eq r.user_email s.user_email && str_eq r.gmail_thread_id s.gmail_thread_id
same_columns thread_column r s = str_eq r.gmail_thread_id s.gmail_thread_id
same_columns project_column r s = same_text r.project_page_id s.project_page_id

abbrev pub same_key : Option KeyColumns → SyncTask → SyncTask → Bool
same_key none r s = false
same_key (some k) r s = same_columns k r s

-- Both rows fall under one partial unique index and agree on its columns.
unfoldable pub conflicts : SyncTask → SyncTask → Bool
conflicts r s =
    is_active r.status
    && is_active s.status
    && same_type r.task_type s.task_type
    && same_key (live_index r.task_type) r s
