-- ===== src/Tests/OnWorker.antt =====
-- The laws of the consumers on the concrete table.
use gb_automations.Base.{ℕ, true, false, none, some, [], ◌∷◌, ◌≡◌, refl, arith, ok}
use gb_automations.Schema.{
  SyncTask, Status, TaskType, Db, unique_active, none_conflicts, conflicts, same_type, live_index,
  update, update_rows,
}
use gb_automations.Schema.Valid.{IsValid}
use gb_automations.Queue.Request.{Request}
use gb_automations.Queue.Claim.{
  claimed, claim_one, claim_row, eligible, earlier, first_of_two, oldest,
}
use gb_automations.Queue.Claim.Laws.{after_claim}
use gb_automations.Queue.Outcome.{find_task}
use gb_automations.Mirror.{Settings}
use gb_automations.Worker.Engines.{
  Engines, Run, Report, PageReport, ThreadRun, returned, raised, value_error,
}
use gb_automations.Worker.World.{World, Claimed, flatten}
use gb_automations.Worker.ThreadTask.{process}
use gb_automations.Worker.Settles.Error.{error_of}
use gb_automations.Worker.Settles.Steps.{InFlight, Settled}
use gb_automations.Worker.Consumer.{consumer_round}
use gb_automations.Worker.Consumer.Laws.{RoundOutcome, consumer_round-outcome, process-Settled}
use gb_automations.Worker.System.{System, Step, Reach}
use gb_automations.Worker.System.Exclusive.{IsSafe}
use gb_automations.Worker.System.Mutual.{Reach-IsSafe}
use gb_automations.Tests.Data.{task, due_thread, busy_labels, table, table-IsValid, free}

abbrev settings : Settings
settings = record { queue_enabled = true; dot_enabled = true }

abbrev fine : Run Report
fine = record {
  attempt = returned (record { failed = false; note = none });
  requests = [];
  seconds = 2;
}

abbrev fine_page : Run PageReport
fine_page = record {
  attempt = returned (record { report = record { failed = false; note = none }; page = some "p1" });
  requests = [];
  seconds = 2;
}

abbrev thread_run : ThreadRun
thread_run = record {
  run = record {
    attempt = returned (record {
      errors = "attachment too large" ∷ [];
      thread_subject = some "Levering";
      project_page_id = some "p1";
      project_name = some "Film";
    });
    requests = Request.for_nas_folder_sync "p1" ∷ [];
    seconds = 3;
  };
  resolved = some ("Levering", some "p1");
}

-- Threads end with an error, labels raise, and all else succeeds.
abbrev engines : Engines
engines = record {
  sync_project_labels =
      λ _. record { attempt = raised (value_error "label gone"); requests = []; seconds = 1 };
  sync_nas_folder = λ _. fine;
  sync_task_folder = λ _. fine_page;
  sync_frame_project = λ _. fine;
  sync_frame_project_status = λ _. fine;
  dispatch_project_status = λ _. fine;
  graduate_project = λ _. record { attempt = returned none; requests = []; seconds = 1 };
  create_fiken_invoice = λ _. fine;
  sync_toggl_hours = fine;
  sync_toggl_project = λ _. fine;
  sync_frame_leveranse = λ _. fine_page;
  sync_frame_comment = λ _. fine_page;
  sync_frame_version = λ _. fine_page;
  sync_frame_file_status = λ _ _. fine_page;
  sync_oppgave_done = λ _. fine_page;
  recheck_leveranse_status = λ _. fine;
  sync_thread = λ _ _. thread_run;
  rebuild_thread = λ _ _. thread_run;
  leveranse_project = λ _. some "p1";
}

abbrev world : World
world = record { db = table; mirror = []; now = 10 }

consumer_round-outcome_example :
    (position : ℕ) × (w' : World) × (consumer_round settings engines free 0 world
      ≡ (ok position, w'))
    × IsValid w'.db
    × RoundOutcome engines free 0 world position w'
consumer_round-outcome_example = consumer_round-outcome settings engines free 0 world table-IsValid

labels-InFlight : InFlight (flatten busy_labels) table
unfolding flatten find_task
labels-InFlight = record {
  valid = table-IsValid;
  row = busy_labels;
  found = refl;
  typed = refl;
  busy = refl;
}

process-Settled_example :
    (w' : World) × (process settings engines "1/1" (flatten busy_labels) world ≡ (ok tt, w'))
    × Settled
        (flatten busy_labels)
        (error_of engines (flatten busy_labels).task_type (flatten busy_labels))
        w'.db
        w'.now
process-Settled_example =
    process-Settled settings engines "1/1" (flatten busy_labels) world labels-InFlight

-- Two rows are due.
abbrev later_thread : SyncTask
later_thread = task 6 TaskType.thread "t6" Status.pending none 0 7

abbrev two_due : Db
two_due = record { rows = later_thread ∷ due_thread ∷ []; next_id = 7 }

two_due-IsValid : IsValid two_due
unfolding unique_active none_conflicts conflicts same_type live_index
two_due-IsValid = record {
  unique = refl;
  distinct = (((λ e. omega (arith, e)), tt), (tt, tt));
  drawn = (omega arith, (omega arith, tt));
}

abbrev idle_system : System
idle_system = record { db = two_due; now = 10; held = [] }

idle-IsSafe : IsSafe idle_system
idle-IsSafe = record { valid = two_due-IsValid; in_flight = tt; apart = tt }

abbrev one_db : Db
one_db = after_claim 10 due_thread two_due

abbrev one_claim : Claimed
one_claim = flatten (claimed 10 2 due_thread)

abbrev one_held : System
one_held = record { db = one_db; now = 10; held = one_claim ∷ [] }

abbrev both_held : System
both_held = record {
  db = after_claim 10 later_thread one_db;
  now = 10;
  held = flatten (claimed 10 1 later_thread) ∷ one_claim ∷ [];
}

both_claim : Reach idle_system both_held
unfolding claim_one claim_row eligible earlier first_of_two oldest update update_rows unique_active
    none_conflicts conflicts same_type live_index
both_claim =
    Reach.next
      (Reach.next Reach.start (Step.claims free (claimed 10 2 due_thread) one_db refl refl))
      (Step.claims free (claimed 10 1 later_thread) both_held.db refl refl)

Reach-IsSafe_example : IsSafe both_held
Reach-IsSafe_example = Reach-IsSafe idle-IsSafe both_claim
