-- ===== src/Tests/OnBridge.antt =====
-- The laws of the mirrors on concrete states.
use gb_automations.Base.{before, Bool, true, false, none, some, [], ◌∷◌, ◌≡◌, ◌⊎◌, refl}
use gb_automations.Worker.Engines.{returned}
use gb_automations.Schema.{clashes, same_type}
use gb_automations.Schema.Valid.{inserted}
use gb_automations.Queue.Request.{for_leveranse_status_recheck, row, columns}
use gb_automations.Worker.World.{enqueue_all}
use gb_automations.Tests.Data.{table}
use gb_automations.Bridge.FileStatus.{
  Answers, Sides, notion, frame, written_frame, unchanged, newest, resolve_status_target_file_id,
  sync_frame_file_status,
}
use gb_automations.Bridge.FileStatus.Laws.{
  Calm, InStep, Kept, sync_frame_file_status-InStep, sync_frame_file_status-again,
  sync_frame_file_status-no_option,
}
use gb_automations.Bridge.Completed.{
  found, FrameComment, DoneAnswers, StatusAnswers, enqueue_recheck, sync_oppgave_done,
  sync_frame_project_status,
}
use gb_automations.Bridge.Completed.Laws.{
  Linked, sync_oppgave_done-Linked, sync_oppgave_done_settles, sync_frame_project_status_settles,
}

abbrev answers_with : Bool → Answers
answers_with option = record {
  sync_frame = true;
  status_field_id = "f";
  placeholder = λ page. some "v0";
  has_project = λ page. true;
  get_file = λ file. returned (some "stack");
  list_version_stack_children = λ stack. returned (
      record { id = "v2"; created_at = "2026-02" }
      ∷ record { id = "v0"; created_at = "2026-03" }
      ∷ record { id = "v1"; created_at = "2026-01" }
      ∷ []);
  notion_read = none;
  frame_read = none;
  notion_reread = none;
  frame_reread = none;
  patch = none;
  put = none;
  has_option = option;
}

abbrev answers : Answers
answers = answers_with true

answers_with-Calm : (option : Bool) → Calm (answers_with option) "d" "v0"
answers_with-Calm option = record {
  enabled = refl;
  field = refl;
  row = refl;
  project = refl;
  notion_read = refl;
  frame_read = refl;
  notion_reread = refl;
  frame_reread = refl;
  patch = refl;
  put = refl;
}

-- The newest version is the target, not the placeholder.
target_of_answers : resolve_status_target_file_id answers "v0" ≡ "v2"
unfolding resolve_status_target_file_id newest before
target_of_answers = refl

abbrev sides : Sides
sides = record { notion = λ page. some "Utgår"; frame = λ file. none }

sync_frame_file_status-InStep_example :
    InStep "d"
      (resolve_status_target_file_id answers "v0")
      (sync_frame_file_status answers frame "d" sides).1
    × Kept frame sides (sync_frame_file_status answers frame "d" sides).1
sync_frame_file_status-InStep_example =
    sync_frame_file_status-InStep answers "d" "v0" (answers_with-Calm true) frame sides refl

sync_frame_file_status-again_example :
    sync_frame_file_status answers frame "d" (sync_frame_file_status answers notion "d" sides).1
    ≡ (unchanged, (sync_frame_file_status answers notion "d" sides).1)
sync_frame_file_status-again_example =
    sync_frame_file_status-again answers "d" "v0" (answers_with-Calm true) notion frame sides refl

sync_frame_file_status-no_option_run :
    sync_frame_file_status (answers_with false) notion "d" sides ≡ (written_frame, sides)
sync_frame_file_status-no_option_run =
    sync_frame_file_status-no_option (answers_with false) "d" "v0" (answers_with-Calm false) sides
      refl refl refl

abbrev comment : FrameComment
comment = record { frame_comment_id = "c1"; leveranse_page_id = "d" }

abbrev done_answers : DoneAnswers
done_answers = record {
  sync_frame = true;
  checkbox = λ page. returned true;
  comment_of = λ page. some comment;
  get_comment = λ id. found tt;
  set_error = none;
}

sync_oppgave_done-Linked_run :
    ((sync_oppgave_done done_answers "k" (λ id. false)).1 "c1" ≡ false)
    ⊎ Linked
        (returned true)
        (some comment)
        (sync_oppgave_done done_answers "k" (λ id. false)).1
        "c1"
sync_oppgave_done-Linked_run = sync_oppgave_done-Linked done_answers "k" (λ id. false) "c1"

sync_oppgave_done_settles_example :
    let first = sync_oppgave_done done_answers "k" (λ id. false) in
    let again = sync_oppgave_done done_answers "k" first.1 in
    (first.1 "c1" ≡ true)
    × (first.2 ≡ enqueue_recheck "d")
    × (again ≡ (gb_automations.Bridge.Completed.skipped_loop, first.1, enqueue_recheck "d"))
    × (enqueue_all 10 again.2 table ≡ inserted (row 10 (for_leveranse_status_recheck "d")) table)
unfolding row columns clashes same_type
sync_oppgave_done_settles_example =
    sync_oppgave_done_settles done_answers "k" comment true (λ id. false) 10 table refl refl refl
      refl refl refl refl

abbrev status_answers : StatusAnswers
status_answers = record {
  sync_frame = true;
  status_of = λ page. returned (some "Tapt");
  project_of = λ page. some "fp";
  get_project = λ id. found tt;
  set_error = none;
}

sync_frame_project_status_settles_example :
    ((sync_frame_project_status status_answers "p" (λ id. some "active")).1 "fp" ≡ some "inactive")
    × (sync_frame_project_status status_answers "p"
          (sync_frame_project_status status_answers "p" (λ id. some "active")).1
        ≡ (
          gb_automations.Bridge.Completed.unchanged,
          (sync_frame_project_status status_answers "p" (λ id. some "active")).1,
        ))
sync_frame_project_status_settles_example =
    sync_frame_project_status_settles status_answers "p" "fp" (some "Tapt") (λ id. some "active")
      refl refl refl refl refl
