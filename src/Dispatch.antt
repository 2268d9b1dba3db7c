-- ===== src/Dispatch.antt =====
-- sync/dispatch_project_status.py: the work that a change of a project's status puts on the queue.
-- The Notion client is a parameter; the page and the rows are what its extractors read of them.
pub mod Asked
pub mod Laws
use gb_automations.Base.{
  ℕ, String, ◌<>◌, Bool, true, false, Option, none, some, List, [], ◌∷◌, ◌++◌, ◌&&◌, ◌||◌,
  if◌then◌else◌, truthy, strip, or_text, str_eq, same_lower,
}
use gb_automations.Queue.Request.{
  Request, for_frame_project_status_sync, for_label_sync, for_nas_folder_sync,
  for_toggl_project_sync, for_frame_project_sync, for_frame_leveranse_sync,
}
use gb_automations.Worker.Engines.{Attempt, returned, raised, Exception, Run, Report}

-- extract_page_title(page) and extract_project_status(page)
pub record ProjectPage : Type 0 where
  pub title : Option String
  pub status : Option String

-- row["id"] and task_discipline(row)
pub record Oppgave : Type 0 where
  pub id : String
  pub discipline : Option String

pub record Notion : Type 0 where
  pub get_page : String → Attempt ProjectPage
  pub oppgaver_for_project : String → Attempt (List Oppgave)

-- The switches of config.py
pub record Flags : Type 0 where
  pub sync_frame : Bool
  pub sync_gmail_labels : Bool
  pub sync_nas_folders : Bool
  pub nas_projects_root : String
  pub sync_toggl : Bool

pub data Engine : Type 0 where
  gmail nas frame toggl : Engine

pub data Action : Type 0 where
  ok skipped failed : Action

-- The fields that the worker reads.
pub record DispatchResult : Type 0 where
  pub action : Action
  pub note : Option String

-- PROJECT_STATUS_AUTO_PROVISION.get(status or "") or set(), by its members
unfoldable pub auto_provision : String → Engine → Bool
auto_provision status gmail =
    str_eq status "Tilbudsfase" || str_eq status "Tilbud godkjent" || str_eq status "I produksjon"
auto_provision status nas = str_eq status "Tilbud godkjent" || str_eq status "I produksjon"
auto_provision status frame = str_eq status "I produksjon"
auto_provision status toggl = str_eq status "I produksjon"

-- title in PROJECTS_PLACEHOLDER_TITLES
unfoldable pub is_placeholder : String → Bool
is_placeholder title = str_eq title "000_Kunde_Prosjekt TEMPLATE"

-- DISCIPLINE_KEYS.get((discipline or "").strip().lower())
unfoldable pub has_discipline : Oppgave → Bool
has_discipline row =
    let name = strip (or_text row.discipline "") in
    same_lower name "interiør"
    || same_lower name "eksteriør"
    || same_lower name "animasjon"
    || same_lower name "annet"

-- _enqueue_frame_deliverables_for_project, over the rows
unfoldable pub deliverables : List Oppgave → List Request
unfolding has_discipline
deliverables [] = []
deliverables (row ∷ rows) =
    let rest = deliverables rows in
    if has_discipline row then for_frame_leveranse_sync row.id ∷ rest else rest

-- The switch of a provisioning engine.
unfoldable pub enabled : Flags → Engine → Bool
enabled flags gmail = flags.sync_gmail_labels
enabled flags nas = flags.sync_nas_folders && truthy flags.nas_projects_root
enabled flags frame = flags.sync_frame
enabled flags toggl = flags.sync_toggl

-- The enqueue call of a provisioning engine for the project itself.
unfoldable pub provision : String → Engine → Request
provision project gmail = for_label_sync project
provision project nas = for_nas_folder_sync project
provision project frame = for_frame_project_sync project
provision project toggl = for_toggl_project_sync project

-- if engine in engines: if its switch is on: enqueue
unfoldable pub lane : Flags → String → String → Engine → List Request
unfolding enabled provision auto_provision
lane flags status project e =
    if auto_provision status e && enabled flags e then provision project e ∷ [] else []

-- The lane that every status change takes.
unfoldable pub status_lane : Flags → String → List Request
status_lane flags project =
    if flags.sync_frame then for_frame_project_status_sync project ∷ [] else []

-- The calls up to the listing of the deliverables.
unfoldable pub lanes : Flags → String → String → List Request
unfolding lane status_lane
lanes flags status project =
    status_lane flags project
    ++ (lane flags status project gmail
        ++ (lane flags status project nas
            ++ (lane flags status project toggl ++ lane flags status project frame)))

abbrev pub ok_result : DispatchResult
ok_result = record { action = ok; note = none }

-- The deliverables' calls, or the exception of their listing, which goes through.
unfoldable pub fan_out :
    Attempt (List Oppgave) → List Request → Attempt DispatchResult × List Request
unfolding deliverables
fan_out (returned rows) asked = (returned ok_result, asked ++ deliverables rows)
fan_out (raised e) asked = (raised e, asked)

unfoldable pub dispatch_page :
    Flags → Notion → String → ProjectPage → Attempt DispatchResult × List Request
unfolding fan_out lanes is_placeholder
dispatch_page flags notion project page =
    let status = or_text page.status "" in
    if is_placeholder (strip (or_text page.title ""))
    then (returned (record { action = skipped; note = some "placeholder title" }), [])
    else if auto_provision status frame && flags.sync_frame
    then fan_out (notion.oppgaver_for_project project) (lanes flags status project)
    else (returned ok_result, lanes flags status project)

-- The result and the enqueue calls, in their order.
unfoldable pub dispatch_project_status :
    Flags → Notion → String → Attempt DispatchResult × List Request
unfolding dispatch_page
dispatch_project_status flags notion project = elim (notion.get_page project) [
  | returned page ↦ dispatch_page flags notion project page
  | raised e ↦
      (returned (record { action = failed; note = some ("Notion get_page: " <> e.message) }), [])
]

is_failure : Action → Bool
is_failure failed = true
is_failure _ = false

reported : Attempt DispatchResult → Attempt Report
reported (returned r) = returned (record { failed = is_failure r.action; note = r.note })
reported (raised e) = raised e

-- The engine as the worker calls it, for a dispatch that takes `seconds`.
unfoldable pub dispatch_run : Flags → Notion → ℕ → String → Run Report
unfolding dispatch_project_status is_failure reported
dispatch_run flags notion seconds project =
    let (outcome, requests) = dispatch_project_status flags notion project in
    record { attempt = reported outcome; requests = requests; seconds = seconds }
