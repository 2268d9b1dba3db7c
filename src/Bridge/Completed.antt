-- ===== src/Bridge/Completed.antt =====
-- The engines that write a state of Notion to Frame.io: sync/sync_oppgave_done.py, the Ferdig checkbox of
-- a correction to its comment, and sync/sync_frame_project_status.py, the status of a project to its
-- Frame.io project. The notes of the results, which are text for the log, are left out.
pub mod Laws
use gb_automations.Base.{
  String, Bool, true, false, Option, none, some, List, [], ◌∷◌, if◌then◌else◌, truthy, str_eq,
  same_text, not, ◌||◌,
}
use gb_automations.Worker.Engines.{Attempt, returned, raised, Exception}
use gb_automations.Queue.Request.{Request}

-- What frame_client.get_… gives: a value, FrameAPIError with status 404 or with another one, or an
-- exception of another class.
pub data Found (A : Type 0) : Type 0 where
  found : A → Found A
  missing : Found A
  broken crashed : Exception → Found A

pub data Action : Type 0 where
  written unchanged skipped skipped_loop failed : Action
  -- the exception is not caught
  raises : Exception → Action

-- A row of frame_comments.
pub record FrameComment : Type 0 where
  pub frame_comment_id : String
  pub leveranse_page_id : String

abbrev pub put {ℓ} : {A : Type ℓ} → String → A → (String → A) → String → A
put id a st q = if str_eq q id then a else st q

-- The answers during a run of sync_oppgave_done. Frame.io's comments, by id, are the state: whether
-- completed_at is set.
pub record DoneAnswers : Type 0 where
  pub sync_frame : Bool
  pub checkbox : String → Attempt Bool
  pub comment_of : String → Option FrameComment
  pub get_comment : String → Found Unit
  pub set_error : Option Exception

-- _enqueue_recheck
abbrev pub enqueue_recheck : String → List Request
enqueue_recheck page = if truthy page then Request.for_leveranse_status_recheck page ∷ [] else []

abbrev pub same_bool : Bool → Bool → Bool
same_bool true b = b
same_bool false b = not b

-- The action, the comments, and the calls that put work on the queue.
abbrev pub Ran : Type 0
Ran = Action × (String → Bool) × List Request

-- Steps 4 and 5.
abbrev pub set_completed : Option Exception → FrameComment → Bool → (String → Bool) → Ran
set_completed none row done comments =
    (written, put row.frame_comment_id done comments, enqueue_recheck row.leveranse_page_id)
set_completed (some e) row done comments = (failed, comments, [])

-- Step 3, with what get_comment gives.
unfoldable pub sync_comment : DoneAnswers → FrameComment → Bool → (String → Bool) → Found Unit → Ran
sync_comment answers row done comments missing = (skipped, comments, [])
sync_comment answers row done comments (broken e) = (failed, comments, [])
sync_comment answers row done comments (crashed e) = (raises e, comments, [])
sync_comment answers row done comments (found x) =
    if same_bool (comments row.frame_comment_id) done
    then (skipped_loop, comments, enqueue_recheck row.leveranse_page_id)
    else set_completed answers.set_error row done comments

-- Step 2, with what step 1 gives.
unfoldable pub sync_linked :
    DoneAnswers → Attempt Bool → Option FrameComment → (String → Bool) → Ran
unfolding sync_comment
sync_linked answers (raised e) row comments = (failed, comments, [])
sync_linked answers (returned done) none comments = (skipped, comments, [])
sync_linked answers (returned done) (some row) comments =
    sync_comment answers row done comments (answers.get_comment row.frame_comment_id)

unfoldable pub sync_oppgave_done : DoneAnswers → String → (String → Bool) → Ran
unfolding sync_linked
sync_oppgave_done answers page comments =
    if answers.sync_frame
    then sync_linked answers (answers.checkbox page) (answers.comment_of page) comments
    else (skipped, comments, [])

-- notion_status in PROJECT_STATUS_INACTIVE_TRIGGERS
unfoldable pub desired_frame_status : Option String → String
desired_frame_status none = "active"
desired_frame_status (some s) =
    if str_eq s "Ferdig" || str_eq s "Tapt" then "inactive" else "active"

-- The answers during a run of sync_frame_project_status. The status of the Frame.io projects, by id,
-- is the state.
pub record StatusAnswers : Type 0 where
  pub sync_frame : Bool
  pub status_of : String → Attempt (Option String)
  pub project_of : String → Option String
  pub get_project : String → Found Unit
  pub set_error : Option Exception

abbrev pub set_project_status :
    Option Exception
    → String
    → String
    → (String → Option String)
    → Action × (String → Option String)
set_project_status none id s projects = (written, put id (some s) projects)
set_project_status (some e) id s projects = (failed, projects)

-- Steps 3 and 4, with what get_project gives.
unfoldable pub sync_project :
    StatusAnswers
    → String
    → String
    → (String → Option String)
    → Found Unit
    → Action × (String → Option String)
sync_project answers id desired projects missing = (skipped, projects)
sync_project answers id desired projects (broken e) = (failed, projects)
sync_project answers id desired projects (crashed e) = (failed, projects)
sync_project answers id desired projects (found x) =
    if same_text (projects id) (some desired)
    then (unchanged, projects)
    else set_project_status answers.set_error id desired projects

unfoldable pub sync_provisioned :
    StatusAnswers
    → Attempt (Option String)
    → Option String
    → (String → Option String)
    → Action × (String → Option String)
unfolding desired_frame_status sync_project
sync_provisioned answers (raised e) row projects = (failed, projects)
sync_provisioned answers (returned status) none projects = (skipped, projects)
sync_provisioned answers (returned status) (some id) projects =
    sync_project answers id (desired_frame_status status) projects (answers.get_project id)

unfoldable pub sync_frame_project_status :
    StatusAnswers → String → (String → Option String) → Action × (String → Option String)
unfolding sync_provisioned
sync_frame_project_status answers page projects =
    if answers.sync_frame
    then sync_provisioned answers (answers.status_of page) (answers.project_of page) projects
    else (skipped, projects)
