-- ===== src/Webhooks/Notion.antt =====
-- The receivers of Notion's buttons and automations, but for the two that ask for a rebuild of threads:
-- the status of the answer and the calls that put work on the queue, in order. The body's JSON, the
-- pages and the listing of the deliverables are parameters.
pub mod Laws
use Prim.Native.Char.{code}
use gb_automations.Base.{
  ℕ, String, ◌<>◌, Bool, true, false, Option, none, some, List, [], ◌∷◌, ◌++◌, ◌&&◌, ◌||◌, not,
  ◌==◌, if◌then◌else◌, truthy, present, strip, or_text, str_eq,
}
use gb_automations.Queue.Request.{
  Request, for_label_sync, for_nas_folder_sync, for_task_folder_sync, for_frame_project_sync,
  for_project_status_dispatch, for_toggl_project_sync, for_frame_leveranse_sync,
  for_oppgave_done_sync, for_frame_file_status_sync, for_send_faktura, for_graduate_faktura,
}
use gb_automations.Worker.Engines.{Attempt, returned, raised}
use gb_automations.Webhooks.Digest.{compare_digest}
use gb_automations.Dispatch.{Oppgave, Flags, has_discipline, deliverables}

-- `lower` is Python's str.lower.
pub record Settings : Type 0 where
  pub lower : String → String
  pub notion_webhook_secret : String
  pub projects_db_id : String
  pub oppgaver_db_id : String
  pub korreksjoner_db_id : String
  pub flags : Flags

pub data Body : Type 0 where
  -- no JSON (JSONDecodeError); bytes that are no text, at which json.loads raises another exception
  -- (UnicodeDecodeError); JSON without the objects that are read, at which the handler raises
  not_json not_text other : Body
  -- data.id and data.parent.database_id
  page : Option String → Option String → Body

-- A fetched page: parent.database_id, the title and task_discipline.
pub record NotionPage : Type 0 where
  pub parent_db : Option String
  pub title : String
  pub row : Oppgave

pub record Answers : Type 0 where
  pub get_page : String → Attempt NotionPage
  pub oppgaver_for_project : String → Attempt (List Oppgave)

pub record Response : Type 0 where
  pub status : ℕ
  pub requests : List Request

abbrev pub answer : ℕ → List Request → Response
answer n rs = record { status = n; requests = rs }

-- `a or b` of two comparisons that were both made before
unfoldable pub either : Attempt Bool → Attempt Bool → Attempt Bool
either (returned a) (returned b) = returned (a || b)
either (returned a) (raised e) = raised e
either (raised e) b = raised e

-- compare_digest raises for texts that are not ASCII, and nothing catches it.
unfoldable pub verify_bearer : Settings → Option String → Attempt Bool
unfolding either
verify_bearer settings header =
    let secret = settings.notion_webhook_secret in
    let h = or_text header "" in
    if truthy secret && truthy h
    then either (compare_digest h ("Bearer " <> secret)) (compare_digest h secret)
    else returned false

-- `s.replace("-", "")`
unfoldable pub without_dashes : String → String
without_dashes String.[] = String.[]
without_dashes (String.◌∷◌ c s) =
    let rest = without_dashes s in if code c == 45 then rest else String.◌∷◌ c rest

unfoldable pub db_id : Settings → String → String
unfolding without_dashes
db_id settings s = settings.lower (without_dashes s)

unfoldable pub page_parented_to_projects_db : Settings → NotionPage → Bool
unfolding db_id
page_parented_to_projects_db settings p =
    if truthy settings.projects_db_id
    then str_eq (db_id settings (or_text p.parent_db "")) (db_id settings settings.projects_db_id)
    else true

unfoldable pub page_parented_to_oppgaver_db : Settings → NotionPage → Bool
unfolding db_id
page_parented_to_oppgaver_db settings p =
    truthy settings.oppgaver_db_id
    && str_eq (db_id settings (or_text p.parent_db "")) (db_id settings settings.oppgaver_db_id)

-- The part that the five automations share, with the database that the page must be in and the call.
unfoldable pub automation :
    Settings → String → (String → Request) → String → Option String → Response
unfolding db_id
automation settings target ask id parent =
    if not (truthy id)
    then answer 200 []
    else if truthy (db_id settings target)
        && not (str_eq (db_id settings (or_text parent "")) (db_id settings target))
    then answer 200 []
    else answer 200 (ask id ∷ [])

pub data Receiver : Type 0 where
  initialize sync_gmail sync_nas sync_frame sync_toggl : Receiver
  oppgave_done oppgave_status project_status send_faktura graduate_faktura : Receiver

-- _sync_frame_impl after its first call: the deliverables, or a status 500 if their listing raises.
abbrev pub fan_out : String → Attempt (List Oppgave) → Response
fan_out id (returned rows) = answer 200 (for_frame_project_sync id ∷ deliverables rows)
fan_out id (raised e) = answer 500 (for_frame_project_sync id ∷ [])

-- The calls of a project's buttons, when the click is resolved to a project's page.
unfoldable pub button : Settings → Answers → Receiver → String → Response
button settings answers sync_nas id =
    if settings.flags.sync_nas_folders && truthy settings.flags.nas_projects_root
    then answer 200 (for_nas_folder_sync id ∷ [])
    else answer 200 []
button settings answers sync_frame id =
    if settings.flags.sync_frame
    then fan_out id (answers.oppgaver_for_project id)
    else answer 200 []
button settings answers sync_toggl id =
    if settings.flags.sync_toggl then answer 200 (for_toggl_project_sync id ∷ []) else answer 200 []
button settings answers _ id = answer 200 (for_label_sync id ∷ [])

-- The rest of _resolve_project_button_click, with the page.
unfoldable pub project_click :
    Settings → Answers → Receiver → String → Attempt NotionPage → Response
unfolding page_parented_to_projects_db button
project_click settings answers receiver id (raised e) = answer 502 []
project_click settings answers receiver id (returned p) =
    if not (page_parented_to_projects_db settings p)
    then answer 400 []
    else if truthy p.title
    then button settings answers receiver id
    else answer 400 []

abbrev pub when : Bool → Request → List Request
when b r = if b then r ∷ [] else []

-- The calls for a row of Oppgaver and for a project.
unfoldable pub oppgave_calls : Settings → String → NotionPage → List Request
oppgave_calls settings id p =
    if truthy p.title && has_discipline p.row
    then for_task_folder_sync id ∷ when settings.flags.sync_frame (for_frame_leveranse_sync id)
    else []

unfoldable pub project_calls : Settings → String → NotionPage → List Request
project_calls settings id p =
    if truthy p.title
    then for_label_sync id
      ∷ (when (settings.flags.sync_nas_folders && truthy settings.flags.nas_projects_root)
            (for_nas_folder_sync id)
          ++ (when settings.flags.sync_frame (for_frame_project_sync id)
              ++ when settings.flags.sync_toggl (for_toggl_project_sync id)))
    else []

unfoldable pub initialize_click : Settings → String → Attempt NotionPage → Response
unfolding page_parented_to_projects_db page_parented_to_oppgaver_db oppgave_calls project_calls
initialize_click settings id (raised e) = answer 502 []
initialize_click settings id (returned p) =
    if page_parented_to_oppgaver_db settings p
    then answer 200 (oppgave_calls settings id p)
    else if page_parented_to_projects_db settings p
    then answer 200 (project_calls settings id p)
    else answer 200 []

-- A receiver with a verified token and a page in the body.
unfoldable pub receive_page :
    Settings → Answers → Receiver → Option String → Option String → Response
unfolding automation project_click initialize_click
receive_page settings answers oppgave_done id parent =
    automation settings settings.korreksjoner_db_id for_oppgave_done_sync (or_text id "") parent
receive_page settings answers oppgave_status id parent =
    automation settings settings.oppgaver_db_id (λ i. for_frame_file_status_sync i "notion")
      (or_text id "") parent
receive_page settings answers project_status id parent =
    automation settings settings.projects_db_id for_project_status_dispatch (strip (or_text id ""))
      parent
receive_page settings answers send_faktura id parent =
    automation settings settings.projects_db_id for_send_faktura (strip (or_text id "")) parent
receive_page settings answers graduate_faktura id parent =
    automation settings settings.projects_db_id for_graduate_faktura (strip (or_text id "")) parent
receive_page settings answers initialize id parent =
    let i = strip (or_text id "") in
    if truthy i then initialize_click settings i (answers.get_page i) else answer 400 []
receive_page settings answers receiver id parent =
    let i = strip (or_text id "") in
    if truthy i
    then project_click settings answers receiver i (answers.get_page i)
    else answer 400 []

-- Whether a refusal is answered with 200: the automations, which Notion pauses at any other status.
abbrev pub is_automation : Receiver → Bool
is_automation oppgave_done = true
is_automation oppgave_status = true
is_automation project_status = true
is_automation send_faktura = true
is_automation graduate_faktura = true
is_automation _ = false

unfoldable pub receive_body : Settings → Answers → Receiver → Body → Response
unfolding receive_page
receive_body settings answers receiver not_json =
    if is_automation receiver then answer 200 [] else answer 400 []
receive_body settings answers receiver not_text = answer 500 []
receive_body settings answers receiver other = answer 500 []
receive_body settings answers receiver (page id parent) =
    receive_page settings answers receiver id parent

-- A receiver, by what the check of the token gives.
unfoldable pub receive_verified : Settings → Answers → Receiver → Body → Attempt Bool → Response
unfolding receive_body
receive_verified settings answers receiver body (raised e) = answer 500 []
receive_verified settings answers receiver body (returned true) =
    receive_body settings answers receiver body
receive_verified settings answers receiver body (returned false) =
    if is_automation receiver then answer 200 [] else answer 401 []

unfoldable pub receive : Settings → Answers → Receiver → Option String → Body → Response
unfolding verify_bearer receive_verified
receive settings answers receiver header body =
    receive_verified settings answers receiver body (verify_bearer settings header)
