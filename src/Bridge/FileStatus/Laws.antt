-- ===== src/Bridge/FileStatus/Laws.antt =====
-- What a run of the mirror writes, and that the two sides agree after it.
use text.Mathlib.TextPositions.{eq_refl}
use gb_automations.Base.{
  String, Bool, true, false, Option, none, some, ◌≡◌, refl, sym, ◌∙◌, ◌⊎◌, inl, inr, Bool-cases,
  if◌then◌else◌, truthy, not, ◌&&◌,
}
use gb_automations.Leveranse.{Statuses}
use gb_automations.Bridge.FileStatus.{
  Answers, Source, Action, Sides, notion, frame, written_frame, written_notion, unchanged,
  equal_text, is_utgaar, put_status, write_status, force_set_oppgave_status, set_file_status,
  wanted, write_other, same_side, reconcile_file, resolve_status_target_file_id,
  sync_frame_file_status,
}

-- The settings and rows that a run needs are there, with the placeholder's id, and nothing raises.
pub record Calm (answers : Answers) (page placeholder : String) : Type 0 where
  pub enabled : answers.sync_frame ≡ true
  pub field : truthy answers.status_field_id ≡ true
  pub row : answers.placeholder page ≡ some placeholder
  pub project : answers.has_project page ≡ true
  pub notion_read : answers.notion_read ≡ none
  pub frame_read : answers.frame_read ≡ none
  pub notion_reread : answers.notion_reread ≡ none
  pub frame_reread : answers.frame_reread ≡ none
  pub patch : answers.patch ≡ none
  pub put : answers.put ≡ none

equal_text_refl : (s : Option String) → equal_text s s ≡ true
equal_text_refl none = refl
equal_text_refl (some s) = eq_refl s

put_status-same :
    (page : String) (s : Option String) (st : Statuses) → put_status page s st page ≡ s
put_status-same page s st = rw (eq_refl page) refl

-- Where one side is written, it then has the other side's Utgår.
utgaar-wanted : (s : Option String) → is_utgaar (wanted s) ≡ is_utgaar s
utgaar-wanted s = elim (Bool-cases (is_utgaar s)) [ inl h ↦ rw h refl | inr h ↦ rw h refl ]

same_side-eq : (a b : Bool) → same_side a b ≡ true → a ≡ b
same_side-eq true true h = refl
same_side-eq false false h = refl
same_side-eq true false h = sym h
same_side-eq false true h = h

same_side_refl : (a b : Bool) → a ≡ b → same_side a b ≡ true
same_side_refl true true h = refl
same_side_refl false false h = refl
same_side_refl true false h = sym h
same_side_refl false true h = h

no_utgaar : (t : Option String) → is_utgaar t ≡ false → equal_text t (some "Utgår") ≡ false
no_utgaar none h = refl
no_utgaar (some a) h = h

-- A status that differs in Utgår differs from the one that is wanted.
equal_text-wanted :
    (s t : Option String)
    → same_side (is_utgaar s) (is_utgaar t) ≡ false
    → equal_text t (wanted s) ≡ false
equal_text-wanted s t h = elim (Bool-cases (is_utgaar s)) [
  | inl e ↦ rw e (no_utgaar t (rw e at h))
  | inr e ↦ rw e (stay t (rw e at h))
]
  where
    stay : (t : Option String) → not (is_utgaar t) ≡ false → equal_text t none ≡ false
    stay none h = h
    stay (some a) h = refl

same_side_sym : (a b : Bool) → same_side a b ≡ same_side b a
same_side_sym true true = refl
same_side_sym true false = refl
same_side_sym false true = refl
same_side_sym false false = refl

and_false : (b : Bool) → (b && false) ≡ false
and_false true = refl
and_false false = refl

-- Both sides have Utgår, or neither.
abbrev pub InStep : String → String → Sides → Type 0
InStep page file sides = is_utgaar (sides.notion page) ≡ is_utgaar (sides.frame file)

abbrev pub Kept : Source → Sides → Sides → Type 0
Kept notion before after = after.notion ≡ before.notion
Kept frame before after = after.frame ≡ before.frame

kept : (source : Source) (sides : Sides) → Kept source sides sides
kept notion sides = refl
kept frame sides = refl

mirrored : Source → String → String → Sides → Action × Sides
mirrored notion page file sides = (
  written_frame,
  record sides { frame = put_status file (wanted (sides.notion page)) sides.frame },
)
mirrored frame page file sides = (
  written_notion,
  record sides { notion = put_status page (wanted (sides.frame file)) sides.notion },
)

mirrored-InStep :
    (source : Source) (page file : String) (sides : Sides)
    → InStep page file (mirrored source page file sides).1
      × Kept source sides (mirrored source page file sides).1
unfolding mirrored
mirrored-InStep notion page file sides = (
  rw (put_status-same file (wanted (sides.notion page)) sides.frame)
      (sym (utgaar-wanted (sides.notion page))),
  refl,
)
mirrored-InStep frame page file sides = (
  rw (put_status-same page (wanted (sides.frame file)) sides.notion)
      (utgaar-wanted (sides.frame file)),
  refl,
)

module _ (answers : Answers) (page placeholder : String)
    (calm : Calm answers page placeholder) where
  abbrev pub file : String
  file = resolve_status_target_file_id answers placeholder

  run-file :
      (source : Source) (sides : Sides)
      → sync_frame_file_status answers source page sides ≡ (
          if same_side (is_utgaar (sides.notion page)) (is_utgaar (sides.frame file))
          then (unchanged, sides)
          else write_other answers source page file sides)
  unfolding sync_frame_file_status reconcile_file
  run-file source sides =
      rw (calm.enabled, calm.field, calm.row, calm.project, calm.notion_read, calm.frame_read) refl

  -- What each source leads to where the sides differ.
  write_other-notion :
      (f : String) (sides : Sides)
      → answers.has_option ≡ true
      → same_side (is_utgaar (sides.notion page)) (is_utgaar (sides.frame f)) ≡ false
      → write_other answers notion page f sides ≡ (
        written_frame,
        record sides { frame = put_status f (wanted (sides.notion page)) sides.frame },
      )
  unfolding write_other set_file_status write_status
  write_other-notion f sides o h =
      rw
        (
          calm.field,
          calm.frame_reread,
          o,
          calm.put,
          equal_text-wanted (sides.notion page) (sides.frame f) h,
          and_false (is_utgaar (wanted (sides.notion page))),
        )
        refl

  write_other-frame :
      (f : String) (sides : Sides)
      → same_side (is_utgaar (sides.notion page)) (is_utgaar (sides.frame f)) ≡ false
      → write_other answers frame page f sides ≡ (
        written_notion,
        record sides { notion = put_status page (wanted (sides.frame f)) sides.notion },
      )
  unfolding write_other force_set_oppgave_status write_status
  write_other-frame f sides h =
      rw
        (
          calm.notion_reread,
          calm.patch,
          equal_text-wanted (sides.frame f) (sides.notion page)
              (same_side_sym (is_utgaar (sides.frame f)) (is_utgaar (sides.notion page)) ∙ h),
        )
        refl

  skips :
      (f : String) (sides : Sides)
      → answers.has_option ≡ false
      → is_utgaar (sides.notion page) ≡ true
      → is_utgaar (sides.frame f) ≡ false
      → write_other answers notion page f sides ≡ (written_frame, sides)
  unfolding write_other set_file_status write_status
  skips f sides o u v = rw (calm.field, calm.frame_reread, u, o, no_utgaar (sides.frame f) v) refl

  -- The run by cases: nothing where the sides are in step, and otherwise one write.
  sync-cases :
      (source : Source) (sides : Sides)
      → answers.has_option ≡ true
      → ((sync_frame_file_status answers source page sides ≡ (unchanged, sides))
          × (is_utgaar (sides.notion page) ≡ is_utgaar (sides.frame file)))
        ⊎ (sync_frame_file_status answers source page sides ≡ mirrored source page file sides)
  unfolding mirrored
  sync-cases source sides o =
      elim (Bool-cases (same_side (is_utgaar (sides.notion page)) (is_utgaar (sides.frame file)))) [
        | inl h ↦ inl (run-file source sides ∙ rw h refl, same_side-eq _ _ h)
        | inr h ↦ inr (run-file source sides ∙ rw h (by_source source h))
      ]
    where
      by_source :
          (source : Source)
          → same_side (is_utgaar (sides.notion page)) (is_utgaar (sides.frame file)) ≡ false
          → write_other answers source page file sides ≡ mirrored source page file sides
      by_source notion h = write_other-notion file sides o h
      by_source frame h = write_other-frame file sides h

  -- When nothing raises and Frame.io has the option, a run leaves both sides with Utgår or both
  -- without, and the source as it was.
  pub sync_frame_file_status-InStep :
      (source : Source) (sides : Sides)
      → answers.has_option ≡ true
      → InStep page file (sync_frame_file_status answers source page sides).1
        × Kept source sides (sync_frame_file_status answers source page sides).1
  sync_frame_file_status-InStep source sides o = elim (sync-cases source sides o) [
    | inl (e, s) ↦ rw e (s, kept source sides)
    | inr e ↦ rw e (mirrored-InStep source page file sides)
  ]

  -- Then a run for the change that the write makes, from either side, does nothing.
  pub sync_frame_file_status-again :
      (source next : Source) (sides : Sides)
      → answers.has_option ≡ true
      → sync_frame_file_status answers next page
          (sync_frame_file_status answers source page sides).1
        ≡ (unchanged, (sync_frame_file_status answers source page sides).1)
  sync_frame_file_status-again source next sides o =
      let after = (sync_frame_file_status answers source page sides).1 in
      run-file next after
      ∙ rw (same_side_refl _ _ (sync_frame_file_status-InStep source sides o).0) refl

  -- Where Frame.io's field has no option Utgår, a run for a deliverable that Notion has at Utgår and
  -- Frame.io not reports a write to Frame.io, and writes nothing.
  pub sync_frame_file_status-no_option :
      (sides : Sides)
      → answers.has_option ≡ false
      → is_utgaar (sides.notion page) ≡ true
      → is_utgaar (sides.frame file) ≡ false
      → sync_frame_file_status answers notion page sides ≡ (written_frame, sides)
  sync_frame_file_status-no_option sides o u v =
      run-file notion sides ∙ rw (u, v) (skips file sides o u v)
