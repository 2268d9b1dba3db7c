-- ===== src/Bridge/Completed/Laws.antt =====
-- A run writes what Notion has, to the linked object alone, and a second run writes nothing to Frame.io.
use text.Mathlib.TextPositions.{eq_refl}
use gb_automations.Base.{
  ℕ, List, truthy, ◌∙◌, sym, any_of, ◌∷◌, arith, String, Bool, true, false, Option, none, some, [],
  ◌≡◌, refl, ap, ◌⊎◌, inl, inr, Bool-cases, if◌then◌else◌, str_eq, str_eq_iff, same_text,
}
use gb_automations.Worker.Engines.{Attempt, Exception, returned, raised}
use gb_automations.Schema.{Db}
use gb_automations.Schema.Valid.{inserted}
use gb_automations.Queue.Request.{Request, for_leveranse_status_recheck, row, wanted}
use gb_automations.Queue.Owed.{owed}
use gb_automations.Worker.World.{enqueue_all}
use gb_automations.Worker.Enqueued.{enqueue_all-cons}
use gb_automations.Bridge.Completed.{
  Action, Found, found, FrameComment, put, DoneAnswers, enqueue_recheck, same_bool, set_completed,
  sync_comment, sync_linked, sync_provisioned, sync_oppgave_done, desired_frame_status,
  StatusAnswers, sync_project, sync_frame_project_status, skipped_loop, unchanged,
}

put-same : {A : Type 0} (id : String) (a : A) (st : String → A) → put id a st id ≡ a
put-same id a st = rw (eq_refl id) refl

put-cases :
    {A : Type 0} (id : String) (a : A) (st : String → A) (q : String)
    → (put id a st q ≡ st q) ⊎ ((q ≡ id) × (put id a st q ≡ a))
put-cases id a st q = elim (Bool-cases (str_eq q id)) [
  | inl e ↦ inr ((str_eq_iff q id).0 e, rw e refl)
  | inr e ↦ inl (rw e refl)
]

same_bool-eq : (a b : Bool) → same_bool a b ≡ true → a ≡ b
same_bool-eq true true h = refl
same_bool-eq false false h = refl
same_bool-eq true false h = ground arith
same_bool-eq false true h = ground arith

same_bool_refl : (a : Bool) → same_bool a a ≡ true
same_bool_refl true = refl
same_bool_refl false = refl

-- The comment is the linked one, and has the checkbox's value.
abbrev pub Linked : Attempt Bool → Option FrameComment → (String → Bool) → String → Type 0
Linked checkbox linked after q =
    (row : FrameComment) × (linked ≡ some row)
    × (q ≡ row.frame_comment_id)
    × (checkbox ≡ returned (after q))

set_completed-Linked :
    (error : Option Exception) (row : FrameComment) (done : Bool) (comments : String → Bool)
    (q : String)
    → ((set_completed error row done comments).1 q ≡ comments q)
      ⊎ Linked (returned done) (some row) (set_completed error row done comments).1 q
set_completed-Linked (some e) row done comments q = inl refl
set_completed-Linked none row done comments q =
    elim (put-cases row.frame_comment_id done comments q) [
      | inl e ↦ inl e
      | inr (e, v) ↦ inr (row, refl, e, ap returned (sym v))
    ]

sync_comment-Linked :
    (answers : DoneAnswers) (row : FrameComment) (done : Bool) (comments : String → Bool)
    (f : Found Unit) (q : String)
    → ((sync_comment answers row done comments f).1 q ≡ comments q)
      ⊎ Linked (returned done) (some row) (sync_comment answers row done comments f).1 q
unfolding sync_comment
sync_comment-Linked answers row done comments Found.missing q = inl refl
sync_comment-Linked answers row done comments (Found.broken e) q = inl refl
sync_comment-Linked answers row done comments (Found.crashed e) q = inl refl
sync_comment-Linked answers row done comments (found x) q =
    elim (Bool-cases (same_bool (comments row.frame_comment_id) done)) [
      | inl h ↦ rw (sync_comment, h) (inl refl)
      | inr h ↦ rw (sync_comment, h) (set_completed-Linked answers.set_error row done comments q)
    ]

sync_linked-Linked :
    (answers : DoneAnswers) (checkbox : Attempt Bool) (linked : Option FrameComment)
    (comments : String → Bool) (q : String)
    → ((sync_linked answers checkbox linked comments).1 q ≡ comments q)
      ⊎ Linked checkbox linked (sync_linked answers checkbox linked comments).1 q
unfolding sync_linked
sync_linked-Linked answers (raised e) linked comments q = inl refl
sync_linked-Linked answers (returned done) none comments q = inl refl
sync_linked-Linked answers (returned done) (some row) comments q =
    sync_comment-Linked answers row done comments (answers.get_comment row.frame_comment_id) q

-- Whatever fails, a run changes no comment in Frame.io but the one that is linked to the correction,
-- and that only to the value of the checkbox.
pub sync_oppgave_done-Linked :
    (answers : DoneAnswers) (page : String) (comments : String → Bool) (q : String)
    → ((sync_oppgave_done answers page comments).1 q ≡ comments q)
      ⊎ Linked
          (answers.checkbox page)
          (answers.comment_of page)
          (sync_oppgave_done answers page comments).1
          q
unfolding sync_oppgave_done
sync_oppgave_done-Linked answers page comments q = elim (Bool-cases answers.sync_frame) [
  | inr h ↦ rw (sync_oppgave_done, h) (inl refl)
  | inl h ↦
      rw (sync_oppgave_done, h)
        (sync_linked-Linked answers (answers.checkbox page) (answers.comment_of page) comments q)
]

runs_of_both :
    (answers : DoneAnswers) (page : String) (row : FrameComment) (done : Bool)
    (comments : String → Bool)
    → answers.sync_frame ≡ true
    → answers.checkbox page ≡ returned done
    → answers.comment_of page ≡ some row
    → answers.get_comment row.frame_comment_id ≡ found tt
    → answers.set_error ≡ none
    → ((sync_oppgave_done answers page comments).1 row.frame_comment_id ≡ done)
      × ((sync_oppgave_done answers page comments).2 ≡ enqueue_recheck row.leveranse_page_id)
      × (sync_oppgave_done answers page (sync_oppgave_done answers page comments).1 ≡ (
        skipped_loop,
        (sync_oppgave_done answers page comments).1,
        enqueue_recheck row.leveranse_page_id,
      ))
unfolding sync_oppgave_done sync_linked sync_comment
runs_of_both answers page row done comments s b c g e =
    elim (Bool-cases (same_bool (comments row.frame_comment_id) done)) [
      | inl h ↦ rw (s, b, c, g, h) (same_bool-eq _ _ h, refl, rw h refl)
      | inr h ↦
          rw (s, b, c, g, h, e, put-same row.frame_comment_id done comments, same_bool_refl done)
            (refl, refl, refl)
    ]

enqueue_recheck-inserted :
    (now : ℕ) (page : String) (db : Db)
    → truthy page ≡ true
    → owed (for_leveranse_status_recheck page) db.rows ≡ false
    → enqueue_all now (enqueue_recheck page) db
      ≡ inserted (row now (for_leveranse_status_recheck page)) db
unfolding enqueue_all wanted
enqueue_recheck-inserted now page db t o =
    let q = for_leveranse_status_recheck page in
    let one : enqueue_recheck page ≡ q ∷ [] = rw t refl in
    ap (λ (qs : List Request). enqueue_all now qs db) one
    ∙ enqueue_all-cons now q [] db
    ∙ rw (t, o) refl

-- A run that reads the checkbox and the linked comment, and whose write goes through, leaves the comment
-- at the checkbox's value and asks for a recheck of the deliverable. The next run writes nothing to
-- Frame.io, but it asks for the recheck again, which adds a row to a queue on which no active row stands
-- for it.
pub sync_oppgave_done_settles :
    (answers : DoneAnswers) (page : String) (linked : FrameComment) (done : Bool)
    (comments : String → Bool) (now : ℕ) (db : Db)
    → answers.sync_frame ≡ true
    → answers.checkbox page ≡ returned done
    → answers.comment_of page ≡ some linked
    → answers.get_comment linked.frame_comment_id ≡ found tt
    → answers.set_error ≡ none
    → truthy linked.leveranse_page_id ≡ true
    → owed (for_leveranse_status_recheck linked.leveranse_page_id) db.rows ≡ false
    → let first = sync_oppgave_done answers page comments in
      let again = sync_oppgave_done answers page first.1 in
      (first.1 linked.frame_comment_id ≡ done)
      × (first.2 ≡ enqueue_recheck linked.leveranse_page_id)
      × (again ≡ (skipped_loop, first.1, enqueue_recheck linked.leveranse_page_id))
      × (enqueue_all now again.2 db
          ≡ inserted (row now (for_leveranse_status_recheck linked.leveranse_page_id)) db)
sync_oppgave_done_settles answers page linked done comments now db s b c g e t o =
    let (at, asks, again) = runs_of_both answers page linked done comments s b c g e in
    (
      at,
      asks,
      again,
      ap (λ (r : Action × (String → Bool) × List Request). enqueue_all now r.2 db) again
          ∙ enqueue_recheck-inserted now linked.leveranse_page_id db t o,
    )

-- Ferdig or Tapt
abbrev pub is_closed : Option String → Bool
is_closed status = any_of (same_text status) (some "Ferdig" ∷ some "Tapt" ∷ [])

desired-lem :
    (status : Option String)
    → desired_frame_status status ≡ (if is_closed status then "inactive" else "active")
unfolding desired_frame_status
desired-lem none = refl
desired-lem (some s) = ground arith

same_text-eq : (s : Option String) (t : String) → same_text s (some t) ≡ true → s ≡ some t
same_text-eq none t h = ground arith
same_text-eq (some s) t h = ap some ((str_eq_iff s t).0 h)

-- A run that reads the project's status and its Frame.io project, and whose write goes through, leaves the
-- Frame.io project inactive for the statuses Ferdig and Tapt and active otherwise; the next run
-- changes nothing.
pub sync_frame_project_status_settles :
    (answers : StatusAnswers) (page id : String) (status : Option String)
    (projects : String → Option String)
    → answers.sync_frame ≡ true
    → answers.status_of page ≡ returned status
    → answers.project_of page ≡ some id
    → answers.get_project id ≡ found tt
    → answers.set_error ≡ none
    → ((sync_frame_project_status answers page projects).1 id
        ≡ some (if is_closed status then "inactive" else "active"))
      × (sync_frame_project_status answers page (sync_frame_project_status answers page projects).1
          ≡ (unchanged, (sync_frame_project_status answers page projects).1))
unfolding sync_frame_project_status sync_provisioned sync_project
sync_frame_project_status_settles answers page id status projects s b c g e =
    elim (Bool-cases (same_text (projects id) (some (desired_frame_status status)))) [
      | inl h ↦
          rw (s, b, c, g, h)
            (same_text-eq (projects id) _ h ∙ ap some (desired-lem status), rw h refl)
      | inr h ↦
          rw
            (
              s,
              b,
              c,
              g,
              h,
              e,
              put-same id (some (desired_frame_status status)) projects,
              eq_refl (desired_frame_status status),
            )
            (ap some (desired-lem status), refl)
    ]
