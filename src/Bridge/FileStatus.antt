-- ===== src/Bridge/FileStatus.antt =====
-- sync/sync_frame_file_status.py: the status Utgår of a deliverable, in Notion and on the newest file in
-- Frame.io; with force_set_oppgave_status of clients/notion.py and set_file_status of
-- clients/frame.py. The notes of the result, which are text for the log, are left out.
pub mod Laws
use gb_automations.Base.{
  String, Bool, true, false, Option, none, some, List, [], ◌∷◌, if◌then◌else◌, truthy, before,
  str_eq, same_text, not, ◌&&◌, ◌||◌,
}
use gb_automations.Worker.Engines.{Attempt, returned, raised, Exception}
use gb_automations.Leveranse.{Statuses}

-- A version in a stack, as list_version_stack_children gives it.
pub record Version : Type 0 where
  pub id : String
  pub created_at : String

-- What the database, Notion and Frame.io answer during one run; a get_file gives the parent id.
pub record Answers : Type 0 where
  pub sync_frame : Bool
  pub status_field_id : String
  pub placeholder : String → Option String
  pub has_project : String → Bool
  pub get_file : String → Attempt (Option String)
  pub list_version_stack_children : String → Attempt (List Version)
  -- the first reads of both sides, the reads before a write, and the writes
  pub notion_read : Option Exception
  pub frame_read : Option Exception
  pub notion_reread : Option Exception
  pub frame_reread : Option Exception
  pub patch : Option Exception
  pub put : Option Exception
  -- whether Frame.io's field has an option Utgår
  pub has_option : Bool

-- The last version of the list when it is sorted by created_at, the placeholder left out.
unfoldable pub newest : String → List Version → Option Version
newest placeholder [] = none
newest placeholder (v ∷ vs) =
    let rest = newest placeholder vs in
    if not (truthy v.id) || str_eq v.id placeholder then rest else elim rest [
      | none ↦ some v
      | some w ↦ if before w.created_at v.created_at then some v else some w
    ]

abbrev pub id_or : String → Option Version → String
id_or placeholder none = placeholder
id_or placeholder (some v) = v.id

abbrev pub in_stack : String → Attempt (List Version) → String
in_stack placeholder (raised e) = placeholder
in_stack placeholder (returned vs) = id_or placeholder (newest placeholder vs)

unfoldable pub resolve_status_target_file_id : Answers → String → String
unfolding newest
resolve_status_target_file_id answers placeholder = elim (answers.get_file placeholder) [
  | raised e ↦ placeholder
  | returned none ↦ placeholder
  | returned (some parent) ↦
      if truthy parent
      then in_stack placeholder (answers.list_version_stack_children parent)
      else placeholder
]

-- `a == b` of two nullable texts
abbrev pub equal_text : Option String → Option String → Bool
equal_text none none = true
equal_text none (some b) = false
equal_text (some a) none = false
equal_text (some a) (some b) = str_eq a b

abbrev pub is_utgaar : Option String → Bool
is_utgaar s = same_text s (some "Utgår")

abbrev pub put_status : String → Option String → Statuses → Statuses
put_status page s st q = if str_eq q page then s else st q

pub data Outcome : Type 0 where
  written unchanged skipped : Outcome

-- After the read of the current status: compare, and write where it differs.
unfoldable pub write_status :
    Option Exception → String → Option String → Statuses → Attempt Outcome × Statuses
write_status patch page s st =
    if equal_text (st page) s
    then (returned unchanged, st)
    else elim patch [ none ↦ (returned written, put_status page s st) | some e ↦ (raised e, st) ]

unfoldable pub force_set_oppgave_status :
    Answers → String → Option String → Statuses → Attempt Outcome × Statuses
unfolding write_status
force_set_oppgave_status answers page s st = elim answers.notion_reread [
  | none ↦ write_status answers.patch page s st
  | some e ↦ (raised e, st)
]

unfoldable pub set_file_status :
    Answers → String → Option String → Statuses → Attempt Outcome × Statuses
unfolding write_status
set_file_status answers file s st =
    if not (truthy answers.status_field_id)
    then (returned skipped, st)
    else elim answers.frame_reread [
      | some e ↦ (raised e, st)
      | none ↦
          if not (equal_text (st file) s) && is_utgaar s && not answers.has_option
          then (returned skipped, st)
          else write_status answers.put file s st
    ]

pub data Source : Type 0 where
  notion frame : Source

pub data Action : Type 0 where
  written_frame written_notion unchanged skipped failed : Action

abbrev pub action_of : Action → Attempt Outcome → Action
action_of act (raised e) = failed
action_of act (returned unchanged) = unchanged
action_of act (returned written) = act
action_of act (returned skipped) = act

-- Both sides: Notion's Status column and the status field of the files.
pub record Sides : Type 0 where
  pub notion : Statuses
  pub frame : Statuses

abbrev pub wanted : Option String → Option String
wanted s = if is_utgaar s then some "Utgår" else none

-- Step 4: the side that is not the source is written.
unfoldable pub write_other : Answers → Source → String → String → Sides → Action × Sides
unfolding force_set_oppgave_status set_file_status
write_other answers frame page file sides =
    let r = force_set_oppgave_status answers page (wanted (sides.frame file)) sides.notion in
    (action_of written_notion r.0, record sides { notion = r.1 })
write_other answers notion page file sides =
    let r = set_file_status answers file (wanted (sides.notion page)) sides.frame in
    (action_of written_frame r.0, record sides { frame = r.1 })

abbrev pub same_side : Bool → Bool → Bool
same_side true b = b
same_side false b = not b

abbrev pub is_raised : Option Exception → Bool
is_raised none = false
is_raised (some e) = true

-- Steps 2 and 3, with the file.
unfoldable pub reconcile_file : Answers → Source → String → String → Sides → Action × Sides
unfolding write_other
reconcile_file answers source page file sides =
    if is_raised answers.notion_read || is_raised answers.frame_read
    then (failed, sides)
    else if same_side (is_utgaar (sides.notion page)) (is_utgaar (sides.frame file))
    then (unchanged, sides)
    else write_other answers source page file sides

unfoldable pub sync_frame_file_status : Answers → Source → String → Sides → Action × Sides
unfolding resolve_status_target_file_id reconcile_file
sync_frame_file_status answers source page sides =
    if not answers.sync_frame || not (truthy answers.status_field_id)
    then (skipped, sides)
    else elim (answers.placeholder page) [
      | none ↦ (skipped, sides)
      | some placeholder ↦
          if answers.has_project page
          then reconcile_file answers source page
              (resolve_status_target_file_id answers placeholder) sides
          else (skipped, sides)
    ]
