-- ===== src/Tests/OnDispatch.antt =====
-- The laws of a dispatch on the concrete table.
use gb_automations.Base.{
  true, false, some, [], ◌∷◌, List, ◌≡◌, refl, here, there, strip, same_lower,
}
use gb_automations.Queue.Request.{Request, wanted}
use gb_automations.Queue.Owed.{owed}
use gb_automations.Worker.Engines.{returned}
use gb_automations.Worker.World.{enqueue_all}
use gb_automations.Worker.Enqueued.{enqueue_all-enqueue_all}
use gb_automations.Dispatch.{
  Notion, Flags, ProjectPage, Oppgave, auto_provision, is_placeholder, dispatch_project_status,
  has_discipline,
}
use gb_automations.Dispatch.Asked.{Asked, title_of}
use gb_automations.Dispatch.Laws.{dispatch-Asked, dispatch-owed}
use gb_automations.Tests.Data.{table}

abbrev flags : Flags
flags = record {
  sync_frame = true;
  sync_gmail_labels = true;
  sync_nas_folders = true;
  nas_projects_root = "";
  sync_toggl = false;
}

abbrev in_production : ProjectPage
in_production = record { title = some "101_Acme"; status = some "I produksjon" }

abbrev animation : Oppgave
animation = record { id = "d1"; discipline = some " Animasjon" }

abbrev internal : Oppgave
internal = record { id = "d2"; discipline = some "Internt" }

abbrev notion : Notion
notion = record {
  get_page = λ _. returned in_production;
  oppgaver_for_project = λ _. returned (internal ∷ animation ∷ []);
}

-- The NAS has no root and Toggl is off.
fan_out_of_production :
    (dispatch_project_status flags notion "p5").1
    ≡ Request.for_frame_project_status_sync "p5"
      ∷ Request.for_label_sync "p5"
      ∷ Request.for_frame_project_sync "p5"
      ∷ Request.for_frame_leveranse_sync "d1"
      ∷ []
unfolding dispatch_project_status strip same_lower
fan_out_of_production = refl

animation-Asked : Asked flags notion "p5" in_production (Request.for_frame_leveranse_sync "d1")
unfolding auto_provision has_discipline strip same_lower
animation-Asked =
    Asked.deliverable (internal ∷ animation ∷ []) animation refl refl refl (there (here refl)) refl

dispatch-owed_example :
    owed
      (Request.for_frame_leveranse_sync "d1")
      (enqueue_all 10 (dispatch_project_status flags notion "p5").1 table).rows
    ≡ true
unfolding is_placeholder wanted strip
dispatch-owed_example =
    dispatch-owed flags notion "p5" in_production 10 (Request.for_frame_leveranse_sync "d1") table
      refl refl animation-Asked refl

dispatch-Asked_example :
    (is_placeholder (title_of in_production) ≡ false)
    × Asked flags notion "p5" in_production (Request.for_label_sync "p5")
unfolding dispatch_project_status strip same_lower
dispatch-Asked_example =
    dispatch-Asked flags notion "p5" in_production (Request.for_label_sync "p5") refl
      (there (here refl))

abbrev calls : List Request
calls = Request.for_label_sync "p5" ∷ Request.for_label_sync "p1" ∷ []

enqueue_all-enqueue_all_run :
    enqueue_all 99 calls (enqueue_all 10 calls table) ≡ enqueue_all 10 calls table
enqueue_all-enqueue_all_run = enqueue_all-enqueue_all 10 99 calls table
