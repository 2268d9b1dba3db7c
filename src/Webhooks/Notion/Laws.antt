-- ===== src/Webhooks/Notion/Laws.antt =====
-- Who may put work on the queue, and what the buttons have in common.
use gb_automations.Base.{
  if◌then◌else◌, ◌<>◌, ◌||◌, ◌≢◌, not, str_eq, String, Bool, true, false, Option, List, [], ◌∷◌,
  ◌++◌, ◌≡◌, refl, ap, arith, Bool-cases, inl, inr, truthy, strip, or_text, keep_if, ◌&&◌,
}
use gb_automations.Queue.Request.{
  Request, for_frame_project_sync, for_frame_leveranse_sync, for_nas_folder_sync,
  for_toggl_project_sync, for_oppgave_done_sync, for_frame_file_status_sync,
  for_project_status_dispatch, for_send_faktura, for_graduate_faktura,
}
use gb_automations.Worker.Engines.{Attempt, returned, raised}
use gb_automations.Webhooks.Digest.{is_ascii, compare_digest, type_error, is_ascii-append}
use gb_automations.Dispatch.{Oppgave, has_discipline, deliverables}
use gb_automations.Webhooks.Notion.{
  Settings, Answers, Body, not_json, not_text, other, page, NotionPage, Receiver, Response,
  verify_bearer, receive, receive_verified, receive_page, receive_body, automation, is_automation,
  initialize, sync_gmail, sync_nas, sync_frame, sync_toggl, page_parented_to_projects_db,
  page_parented_to_oppgaver_db, initialize_click, project_click, project_calls, button, when,
  fan_out,
}

-- Where the check of the token gives anything but true, no receiver puts anything on the queue.
pub receive-unverified :
    (settings : Settings) (answers : Answers) (receiver : Receiver) (header : Option String)
    (body : Body)
    → verify_bearer settings header ≢ returned true
    → (receive settings answers receiver header body).requests ≡ []
unfolding receive receive_verified
receive-unverified settings answers receiver header body = go (verify_bearer settings header)
  where
    go :
        (v : Attempt Bool)
        → v ≢ returned true
        → (receive_verified settings answers receiver body v).requests ≡ []
    go (raised e) h = refl
    go (returned true) h = absurd (h refl)
    go (returned false) h = elim (Bool-cases (is_automation receiver)) [
      | inl a ↦ rw a refl
      | inr a ↦ rw a refl
    ]

automation-200 :
    (settings : Settings) (target : String) (ask : String → Request) (id : String)
    (parent : Option String)
    → (automation settings target ask id parent).status ≡ 200
unfolding automation
automation-200 settings target ask id parent = ground arith

receive_page-200 :
    (settings : Settings) (answers : Answers) (receiver : Receiver) (id parent : Option String)
    → is_automation receiver ≡ true
    → (receive_page settings answers receiver id parent).status ≡ 200
unfolding receive_page
receive_page-200 settings answers Receiver.oppgave_done id parent a =
    automation-200 settings settings.korreksjoner_db_id for_oppgave_done_sync (or_text id "") parent
receive_page-200 settings answers Receiver.oppgave_status id parent a =
    automation-200 settings settings.oppgaver_db_id (λ i. for_frame_file_status_sync i "notion")
      (or_text id "") parent
receive_page-200 settings answers Receiver.project_status id parent a =
    automation-200 settings settings.projects_db_id for_project_status_dispatch
      (strip (or_text id "")) parent
receive_page-200 settings answers Receiver.send_faktura id parent a =
    automation-200 settings settings.projects_db_id for_send_faktura (strip (or_text id "")) parent
receive_page-200 settings answers Receiver.graduate_faktura id parent a =
    automation-200 settings settings.projects_db_id for_graduate_faktura (strip (or_text id ""))
      parent
receive_page-200 settings answers initialize id parent a = ground arith
receive_page-200 settings answers sync_gmail id parent a = ground arith
receive_page-200 settings answers sync_nas id parent a = ground arith
receive_page-200 settings answers sync_frame id parent a = ground arith
receive_page-200 settings answers sync_toggl id parent a = ground arith

-- A body at which the handler raises
abbrev pub is_broken : Body → Bool
is_broken not_text = true
is_broken other = true
is_broken _ = false

receive_body-status :
    (settings : Settings) (answers : Answers) (receiver : Receiver) (body : Body)
    → is_automation receiver ≡ true
    → (receive_body settings answers receiver body).status ≡ (if is_broken body then 500 else 200)
unfolding receive_body
receive_body-status settings answers receiver not_json a = rw (receive_body, a) refl
receive_body-status settings answers receiver not_text a = refl
receive_body-status settings answers receiver other a = refl
receive_body-status settings answers receiver (page id parent) a =
    receive_page-200 settings answers receiver id parent a

-- The token and the secret, which are both there, are not both ASCII.
abbrev pub is_crash : Settings → Option String → Bool
is_crash settings header =
    truthy settings.notion_webhook_secret
    && truthy (or_text header "")
    && not (is_ascii (or_text header "") && is_ascii settings.notion_webhook_secret)

-- The header has the secret, bare or as a bearer's.
abbrev pub is_signed : Settings → Option String → Bool
is_signed settings header =
    truthy settings.notion_webhook_secret
    && truthy (or_text header "")
    && (str_eq (or_text header "") ("Bearer " <> settings.notion_webhook_secret)
        || str_eq (or_text header "") settings.notion_webhook_secret)

is_ascii-bearer : (secret : String) → is_ascii ("Bearer " <> secret) ≡ is_ascii secret
unfolding is_ascii
is_ascii-bearer secret = is_ascii-append "Bearer " secret

verify_bearer-lem :
    (settings : Settings) (header : Option String)
    → verify_bearer settings header ≡ (
        if is_crash settings header
        then raised type_error
        else returned (is_signed settings header))
unfolding verify_bearer compare_digest
verify_bearer-lem settings header =
    let secret = settings.notion_webhook_secret in
    let h = or_text header "" in
    elim (Bool-cases (truthy secret && truthy h)) [
      | inr e ↦ rw (is_ascii-bearer secret, e) refl
      | inl e ↦ elim (Bool-cases (is_ascii h && is_ascii secret)) [
        | inl a ↦ rw (is_ascii-bearer secret, e, a) refl
        | inr a ↦ rw (is_ascii-bearer secret, e, a) refl
      ]
    ]

-- An automation is answered with 200, also without a valid token or with a body that is no JSON, but with
-- 500 in just two cases: there are a secret and a token, not both ASCII, or the token is the secret and
-- the body is no text or is JSON without the objects that the handler reads.
pub receive-automation :
    (settings : Settings) (answers : Answers) (receiver : Receiver) (header : Option String)
    (body : Body)
    → is_automation receiver ≡ true
    → (receive settings answers receiver header body).status ≡ (
        if is_crash settings header || (is_signed settings header && is_broken body)
        then 500
        else 200)
unfolding receive receive_verified
receive-automation settings answers receiver header body a =
    elim (Bool-cases (is_crash settings header)) [
      | inl c ↦ rw (verify_bearer-lem settings header, c) refl
      | inr c ↦ elim (Bool-cases (is_signed settings header)) [
        | inl v ↦
            rw (verify_bearer-lem settings header, c, v)
              (receive_body-status settings answers receiver body a)
        | inr v ↦ rw (verify_bearer-lem settings header, c, v, a) refl
      ]
    ]

-- The calls but for those of the deliverables.
abbrev pub is_project_call : Request → Bool
is_project_call (for_frame_leveranse_sync id) = false
is_project_call _ = true

deliverables-none : (rows : List Oppgave) → keep_if is_project_call (deliverables rows) ≡ []
unfolding deliverables
deliverables-none [] = refl
deliverables-none (row ∷ rows) = elim (Bool-cases (has_discipline row)) [
  | inl h ↦ rw (deliverables, h) (deliverables-none rows)
  | inr h ↦ rw (deliverables, h) (deliverables-none rows)
]

fan_out-project :
    (id : String) (rows : Attempt (List Oppgave))
    → keep_if is_project_call (fan_out id rows).requests ≡ for_frame_project_sync id ∷ []
fan_out-project id (returned rows) =
    ap (λ rs. for_frame_project_sync id ∷ rs) (deliverables-none rows)
fan_out-project id (raised e) = refl

abbrev pub project_only : Response → List Request
project_only r = keep_if is_project_call r.requests

sync_nas-asks :
    (settings : Settings) (answers : Answers) (id : String)
    → project_only (button settings answers sync_nas id)
      ≡ when
          (settings.flags.sync_nas_folders && truthy settings.flags.nas_projects_root)
          (for_nas_folder_sync id)
unfolding button
sync_nas-asks settings answers id =
    elim (Bool-cases (settings.flags.sync_nas_folders && truthy settings.flags.nas_projects_root)) [
      | inl h ↦ rw (button, h) refl
      | inr h ↦ rw (button, h) refl
    ]

sync_frame-asks :
    (settings : Settings) (answers : Answers) (id : String)
    → project_only (button settings answers sync_frame id)
      ≡ when settings.flags.sync_frame (for_frame_project_sync id)
unfolding button
sync_frame-asks settings answers id = elim (Bool-cases settings.flags.sync_frame) [
  | inl h ↦ rw (button, h) (fan_out-project id (answers.oppgaver_for_project id))
  | inr h ↦ rw (button, h) refl
]

sync_toggl-asks :
    (settings : Settings) (answers : Answers) (id : String)
    → project_only (button settings answers sync_toggl id)
      ≡ when settings.flags.sync_toggl (for_toggl_project_sync id)
unfolding button
sync_toggl-asks settings answers id = elim (Bool-cases settings.flags.sync_toggl) [
  | inl h ↦ rw (button, h) refl
  | inr h ↦ rw (button, h) refl
]

-- A click on Initialize of a project asks for just what clicks on its four buttons ask for, but for the
-- deliverables, which the Frame.io button adds.
pub initialize-buttons :
    (settings : Settings) (answers : Answers) (id : String) (p : NotionPage)
    → page_parented_to_oppgaver_db settings p ≡ false
    → let asks : Receiver → List Request =
        λ receiver. project_only (project_click settings answers receiver id (returned p)) in
      (initialize_click settings id (returned p)).requests
      ≡ asks sync_gmail ++ (asks sync_nas ++ (asks sync_frame ++ asks sync_toggl))
unfolding initialize_click project_click project_calls
initialize-buttons settings answers id p o =
    elim (Bool-cases (page_parented_to_projects_db settings p)) [
      | inr h ↦ rw (o, h) refl
      | inl h ↦ elim (Bool-cases (truthy p.title)) [
        | inr t ↦ rw (o, h, t) refl
        | inl t ↦
            rw
              (
                o,
                h,
                t,
                sync_nas-asks settings answers id,
                sync_frame-asks settings answers id,
                sync_toggl-asks settings answers id,
                button,
              )
              refl
      ]
    ]
