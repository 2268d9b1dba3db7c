-- ===== src/Worker/Engines.antt =====
-- What the worker sees of the sync engines: the result that a run returns or the exception that it
-- raises, the calls that it makes to put work on the queue, and the seconds that it takes. An
-- engine reads and writes other systems, so here it is a parameter.
use gb_automations.Base.{
  ℕ, String, Bool, Option, none, some, List, strip, truthy, if◌then◌else◌, ◌∷◌, [], ◌<>◌,
}
use gb_automations.Queue.Request.{Request}

-- A raised exception: its `summary` attribute, its text and its class.
pub record Exception : Type 0 where
  pub summary : Option String
  pub message : String
  pub class_name : String

-- obs.py
unfoldable pub describe_error : Exception → String
describe_error e = describe e.summary
  where
    described : String
    described = let text = strip e.message in if truthy text then text else e.class_name

    describe : Option String → String
    describe none = described
    describe (some s) = if truthy s then s else described

-- raise ValueError(text)
abbrev pub value_error : String → Exception
value_error text = record { summary = none; message = text; class_name = "ValueError" }

pub data Attempt (A : Type 0) : Type 0 where
  returned : A → Attempt A
  raised : Exception → Attempt A

pub record Run (A : Type 0) : Type 0 where
  pub attempt : Attempt A
  pub requests : List Request
  pub seconds : ℕ

-- `action == "failed"` and `note`
pub record Report : Type 0 where
  pub failed : Bool
  pub note : Option String

pub record PageReport : Type 0 where
  pub report : Report
  pub page : Option String

-- SyncThreadResult, as far as the worker reads it, and the arguments of the `on_resolved` call that
-- the engine made, if it came so far.
pub record ThreadReport : Type 0 where
  pub errors : List String
  pub thread_subject : Option String
  pub project_page_id : Option String
  pub project_name : Option String

pub record ThreadRun : Type 0 where
  pub run : Run ThreadReport
  pub resolved : Option (String × Option String)

pub record Engines : Type 0 where
  -- the mailboxes that failed
  pub sync_project_labels : String → Run (List String)
  pub sync_nas_folder : String → Run Report
  pub sync_task_folder : String → Run PageReport
  pub sync_frame_project : String → Run Report
  pub sync_frame_project_status : String → Run Report
  pub dispatch_project_status : String → Run Report
  -- `summary.error`
  pub graduate_project : String → Run (Option String)
  pub create_fiken_invoice : String → Run Report
  pub sync_toggl_hours : Run Report
  pub sync_toggl_project : String → Run Report
  pub sync_frame_leveranse : String → Run PageReport
  pub sync_frame_comment : String → Run PageReport
  pub sync_frame_version : String → Run PageReport
  pub sync_frame_file_status : String → String → Run PageReport
  -- the page is the leveranse's
  pub sync_oppgave_done : String → Run PageReport
  pub recheck_leveranse_status : String → Run Report
  pub sync_thread : String → String → ThreadRun
  pub rebuild_thread : String → String → ThreadRun
  -- the project of a FrameLeveranseFolder row; none where the row or the table is out of reach
  pub leveranse_project : String → Option String

-- ", ".join(names) and "; ".join(names)
abbrev pub join : String → List String → String
join separator [] = ""
join separator (s ∷ []) = s
join separator (s ∷ t ∷ rest) = s <> separator <> join separator (t ∷ rest)
