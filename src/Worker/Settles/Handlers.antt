-- ===== src/Worker/Settles/Handlers.antt =====
-- Every handler settles its task by what the engine says.
use gb_automations.Base.{
  ℕ, String, Bool, true, false, Option, none, some, ◌≡◌, ◌≢◌, present, Bool-cases, inl, inr,
}
use gb_automations.Schema.{
  TaskType, fiken_invoice_create, fiken_poll, Db, live_index, project_column, thread, label_sync,
  nas_folder_sync, task_folder_sync, frame_project_sync, frame_project_status_sync,
  project_status_dispatch, send_faktura, graduate_faktura, toggl_project_sync, toggl_hours_sync,
  frame_leveranse_sync, frame_comment_sync, frame_version_sync, frame_file_status_sync,
  oppgave_done_sync, leveranse_status_recheck,
}
use gb_automations.Mirror.{Settings}
use gb_automations.Worker.Engines.{Engines, Run, Attempt, ThreadReport}
use gb_automations.Worker.Exec.{Exec, ◌>>=◌, ◌>>◌}
use gb_automations.Worker.World.{
  World, Claimed, await, refresh_dot, dot_in_progress, record_outcome, persist_project,
}
use gb_automations.Worker.ProjectTasks.{
  report_error, label_error, summary_error, process_label_sync, process_nas_folder_sync,
  process_frame_project_sync, process_frame_project_status_sync, process_project_status_dispatch,
  process_toggl_project_sync, process_graduate_faktura, process_send_faktura,
  process_toggl_hours_sync,
}
use gb_automations.Worker.PageTasks.{
  process_task_folder_sync, process_frame_leveranse_sync, process_frame_comment_sync,
  process_frame_version_sync, process_frame_file_status_sync, process_oppgave_done_sync,
  process_leveranse_status_recheck,
}
use gb_automations.Worker.ThreadTask.{
  thread_error, on_resolved, show_resolved, show_failure, settle_thread, process_thread, handler,
}
use gb_automations.Worker.Settles.Rules.{Reaches, Reaches-bind, Reaches-pure}
use gb_automations.Worker.Settles.Steps.{
  InFlight, Settled, Reaches-await, Reaches-to_mirror, Reaches-record_outcome, Reaches-mark_done,
  Reaches-mark_failed, Reaches-persist_project,
}
use gb_automations.Worker.Settles.Error.{error_of, thread_run}

module _ (P : Db → ℕ → Type 0) (settings : Settings) (project : Option String)
    (progress subject : String) where
  Reaches-refresh_dot :
      Reaches
        (λ w. P w.db w.now)
        (refresh_dot settings project progress subject)
        (λ _ w. P w.db w.now)
  unfolding refresh_dot
  Reaches-refresh_dot = Reaches-to_mirror P _

  Reaches-dot_in_progress :
      Reaches
        (λ w. P w.db w.now)
        (dot_in_progress settings project progress subject)
        (λ _ w. P w.db w.now)
  unfolding dot_in_progress
  Reaches-dot_in_progress = elim (Bool-cases (present project)) [
    | inl e ↦ rw e Reaches-refresh_dot
    | inr e ↦ rw e (Reaches-pure _ (λ _ w. P w.db w.now) tt (λ _ p. p))
  ]

abbrev pub Settles : Claimed → Option String → Exec World (Unit {0}) → Type 0
Settles c error m = Reaches (λ w. InFlight c w.db) m (λ _ w. Settled c error w.db w.now)

module _ (settings : Settings) (c : Claimed) (progress : String) (error : Option String) where
  record_then_show :
      (project : Option String) (subject : String)
      → Settles c error
          (record_outcome c.id c.attempts error >> refresh_dot settings project progress subject)
  record_then_show project subject =
      Reaches-bind (Reaches-record_outcome c error)
        (λ _. Reaches-refresh_dot (Settled c error) settings project progress subject)

  record_then_dot :
      (project : Option String) (subject : String)
      → Settles c error (
          record_outcome c.id c.attempts error >> dot_in_progress settings project progress subject)
  record_then_dot project subject =
      Reaches-bind (Reaches-record_outcome c error)
        (λ _. Reaches-dot_in_progress (Settled c error) settings project progress subject)

  persist_then_record :
      (project : Option String) (subject : String)
      → live_index c.task_type ≢ some project_column
      → Settles c error (do
        persist_project c.id project
        dot_in_progress settings project progress subject
        record_outcome c.id c.attempts error
        dot_in_progress settings project progress subject)
  persist_then_record project subject keyed =
      Reaches-bind (Reaches-persist_project c project keyed) (λ _.
        Reaches-bind
          (Reaches-dot_in_progress (λ db _. InFlight c db) settings project progress subject)
          (λ _. record_then_dot project subject))

module _ (settings : Settings) (engines : Engines) (c : Claimed) (progress : String) where
  project_task :
      {A : Type 0} (project : Option String) (subject : String) (run : Run A)
      (error : Attempt A → Option String)
      → Settles c (error run.attempt) (do
        refresh_dot settings project progress subject
        outcome ← await run
        record_outcome c.id c.attempts (error outcome)
        refresh_dot settings project progress subject)
  project_task project subject run error =
      Reaches-bind (Reaches-refresh_dot (λ db _. InFlight c db) settings project progress subject)
        (λ _.
          Reaches-await c run _
            (record_then_show settings c progress (error run.attempt) project subject))

  show_resolved-InFlight :
      (project : Option String) (subject : String)
      → Reaches
          (λ w. InFlight c w.db)
          (show_resolved settings engines progress project subject)
          (λ _ w. InFlight c w.db)
  unfolding show_resolved dot_in_progress
  show_resolved-InFlight project subject =
      Reaches-dot_in_progress (λ db _. InFlight c db) settings project progress subject

  on_resolved-InFlight :
      (resolved : Option (String × Option String))
      → live_index c.task_type ≢ some project_column
      → Reaches
          (λ w. InFlight c w.db)
          (on_resolved settings engines progress c resolved)
          (λ _ w. InFlight c w.db)
  unfolding on_resolved
  on_resolved-InFlight none keyed = Reaches-pure _ (λ _ w. InFlight c w.db) none (λ _ p. p)
  on_resolved-InFlight (some (subject, project)) keyed =
      Reaches-bind (Reaches-to_mirror (λ db _. InFlight c db) _) (λ _.
        Reaches-bind (Reaches-persist_project c project keyed) (λ _.
          Reaches-bind (show_resolved-InFlight project subject)
            (λ _. Reaches-pure _ (λ _ w. InFlight c w.db) project (λ _ p. p))))

  show_failure-Settled :
      (terminal : Bool) (error : String) (outcome : Attempt ThreadReport)
      → Reaches
          (λ w. Settled c (some error) w.db w.now)
          (show_failure settings engines progress terminal c.gmail_thread_id error outcome)
          (λ _ w. Settled c (some error) w.db w.now)
  unfolding show_failure
  show_failure-Settled true error outcome = Reaches-to_mirror (Settled c (some error)) _
  show_failure-Settled false error outcome =
      Reaches-pure _ (λ _ w. Settled c (some error) w.db w.now) tt (λ _ p. p)

  settle_thread-Settles :
      (outcome : Attempt ThreadReport) (error : Option String)
      → Settles c error (settle_thread settings engines progress c outcome error)
  unfolding settle_thread
  settle_thread-Settles outcome none =
      Reaches-bind (Reaches-mark_done c) (λ _. Reaches-to_mirror (Settled c none) _)
  settle_thread-Settles outcome (some error) =
      Reaches-bind (Reaches-mark_failed c error)
        (λ terminal. show_failure-Settled terminal error outcome)

  thread_task :
      live_index c.task_type ≢ some project_column
      → Settles c
          (thread_error (thread_run engines c).run.attempt)
          (process_thread settings engines progress c)
  unfolding process_thread thread_run
  thread_task keyed = Reaches-bind (Reaches-to_mirror (λ db _. InFlight c db) _) (λ _.
      Reaches-bind (on_resolved-InFlight _ keyed) (λ resolved. Reaches-await c _ _ (
        Reaches-bind (settle_thread-Settles _ _)
          (λ _. Reaches-refresh_dot (Settled c _) settings _ progress _))))

  by_thread :
      (t : TaskType)
      → c.task_type ≡ t
      → live_index t ≢ some project_column
      → live_index c.task_type ≢ some project_column
  by_thread t same h = rw same h

  -- The handler of a task's type settles it by what the engine says.
  pub handler-Settles :
      (t : TaskType)
      → c.task_type ≡ t
      → Settles c (error_of engines t c) (handler settings engines progress t c)
  unfolding handler error_of live_index process_label_sync process_nas_folder_sync
      process_frame_project_sync process_frame_project_status_sync process_project_status_dispatch
      process_send_faktura process_graduate_faktura process_toggl_project_sync
      process_toggl_hours_sync process_task_folder_sync process_frame_leveranse_sync
      process_frame_comment_sync process_frame_version_sync process_frame_file_status_sync
      process_oppgave_done_sync process_leveranse_status_recheck
  handler-Settles label_sync same = project_task _ _ _ label_error
  handler-Settles nas_folder_sync same = project_task _ _ _ (report_error "nas folder sync failed")
  handler-Settles frame_project_sync same =
      project_task _ _ _ (report_error "frame project sync failed")
  handler-Settles frame_project_status_sync same =
      project_task _ _ _ (report_error "frame project status sync failed")
  handler-Settles project_status_dispatch same =
      project_task _ _ _ (report_error "project status dispatch failed")
  handler-Settles send_faktura same =
      project_task _ _ _ (report_error "send_faktura: invoice creation failed")
  handler-Settles graduate_faktura same = project_task _ _ _ summary_error
  handler-Settles toggl_project_sync same =
      project_task _ _ _ (report_error "toggl project sync failed")
  handler-Settles toggl_hours_sync same = Reaches-await c engines.sync_toggl_hours _ (
      Reaches-bind (Reaches-record_outcome c _)
        (λ _. Reaches-pure _ (λ _ w. Settled c _ w.db w.now) tt (λ _ p. p)))
  handler-Settles task_folder_sync same = Reaches-await c _ _ (
      Reaches-bind (Reaches-dot_in_progress (λ db _. InFlight c db) settings _ progress _)
        (λ _. record_then_dot settings c progress _ _ _))
  handler-Settles frame_leveranse_sync same = Reaches-await c _ _ (
      persist_then_record settings c progress _ _ _ (by_thread frame_leveranse_sync same (λ e. cc)))
  handler-Settles frame_comment_sync same =
      Reaches-await c _ _ (
        persist_then_record settings c progress _ _ _ (by_thread frame_comment_sync same (λ e. cc)))
  handler-Settles frame_version_sync same =
      Reaches-await c _ _ (
        persist_then_record settings c progress _ _ _ (by_thread frame_version_sync same (λ e. cc)))
  handler-Settles frame_file_status_sync same = Reaches-await c _ _ (
      persist_then_record settings c progress _ _ _
        (by_thread frame_file_status_sync same (λ e. cc)))
  handler-Settles oppgave_done_sync same =
      Reaches-await c _ _
        (persist_then_record settings c progress _ _ _ (by_thread oppgave_done_sync same (λ e. cc)))
  handler-Settles leveranse_status_recheck same = Reaches-await c _ _ (
      persist_then_record settings c progress _ _ _
        (by_thread leveranse_status_recheck same (λ e. cc)))
  handler-Settles thread same = thread_task (by_thread thread same (λ e. cc))
  handler-Settles fiken_invoice_create same =
      thread_task (by_thread fiken_invoice_create same (λ e. cc))
  handler-Settles fiken_poll same = thread_task (by_thread fiken_poll same (λ e. cc))
