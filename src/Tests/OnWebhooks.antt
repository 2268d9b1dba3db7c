-- ===== src/Tests/OnWebhooks.antt =====
-- The laws of the receivers on concrete deliveries.
use gb_automations.Base.{
  ℕ, ◌+◌, ◌≤◌, String, ◌<>◌, Bool, true, false, Option, none, some, List, [], ◌∷◌, ◌++◌, ◌≡◌, ◌≢◌,
  ◌⊎◌, ◌&&◌, ◌||◌, inl, refl, any_of, here, str_eq, if◌then◌else◌, truthy, arith, strip,
}
use gb_automations.Schema.Valid.{IsValid}
use gb_automations.Queue.Threads.{stands_for}
use gb_automations.Queue.Request.{for_frame_comment_sync}
use gb_automations.Worker.Engines.{returned}
use gb_automations.Toggl.Durations.{natural}
use gb_automations.Toggl.Reconcile.{after_prefix}
use gb_automations.Webhooks.Gmail.{Answers, Change, Entry, State, push, gmail_webhook}
use gb_automations.Webhooks.Gmail.Laws.{Wanted}
use gb_automations.Webhooks.Gmail.Handover.{Safe, gmail_webhook-owed, gmail_webhook-Safe}
use gb_automations.Webhooks.Digest.{compare_digest}
use gb_automations.Webhooks.Notion.{
  Settings, Receiver, NotionPage, Body, not_text, not_json, receive, receive_verified,
  project_click, initialize_click, verify_bearer, page_parented_to_oppgaver_db, sync_gmail,
  sync_nas, sync_frame, sync_toggl, send_faktura,
}
use gb_automations.Webhooks.Notion.Laws.{
  project_only, is_crash, is_signed, is_broken, receive-unverified, receive-automation,
  initialize-buttons,
}
use gb_automations.Webhooks.Frame.{Hook, Headers, Payload, event, frame_webhook, verify_frame_hmac}
use gb_automations.Webhooks.Frame.Laws.{Signed, frame_webhook-Signed}
use gb_automations.Tests.Data.{table, table-IsValid}

-- A reply to a known thread, and a message that was filed under a project.
abbrev reply : Change
reply = record { thread_id = some "t7"; label_ids = "INBOX" ∷ [] }

abbrev filed : Change
filed = record { thread_id = some "t2"; label_ids = "L1" ∷ [] }

abbrev history : List Entry
history =
    record { messages_added = reply ∷ []; labels_added = filed ∷ []; labels_removed = [] } ∷ []

abbrev answers : Answers
answers = record {
  list_history = λ email id. returned history;
  project_label_ids = λ email. returned ("L1" ∷ []);
  is_known = λ t. true;
}

abbrev state : State
state = record { db = table; cursors = λ email. some "100" }

gmail_webhook-owed_example :
    ((gmail_webhook 10 answers (push "ola@gb.no" "120") state).0 ≡ 200)
    × ((gmail_webhook 10 answers (push "ola@gb.no" "120") state).1.cursors "ola@gb.no" ≡ some "120")
    × IsValid (gmail_webhook 10 answers (push "ola@gb.no" "120") state).1.db
    × ((tid : String)
        → truthy tid ≡ true
        → Wanted (λ t. true) ("L1" ∷ []) history tid
        → any_of
            (stands_for "ola@gb.no" tid)
            (gmail_webhook 10 answers (push "ola@gb.no" "120") state).1.db.rows
          ≡ true)
gmail_webhook-owed_example =
    gmail_webhook-owed 10 answers "ola@gb.no" "120" "100" history ("L1" ∷ []) state table-IsValid
      refl refl refl refl refl

-- The reply is among the wanted threads.
reply-Wanted : Wanted (λ t. true) ("L1" ∷ []) history "t7"
reply-Wanted = (
  record { messages_added = reply ∷ []; labels_added = filed ∷ []; labels_removed = [] },
  here refl,
  gb_automations.Base.inr (reply, here refl, refl, refl),
)

gmail_webhook-Safe_example :
    Safe "ola@gb.no" state (gmail_webhook 10 answers (push "ola@gb.no" "120") state)
gmail_webhook-Safe_example = gmail_webhook-Safe 10 answers "ola@gb.no" "120" state

abbrev settings : Settings
settings = record {
  lower = λ s. s;
  notion_webhook_secret = "k";
  projects_db_id = "p-1";
  oppgaver_db_id = "o-1";
  korreksjoner_db_id = "k-1";
  flags = record {
    sync_frame = true;
    sync_gmail_labels = true;
    sync_nas_folders = true;
    nas_projects_root = "/mnt";
    sync_toggl = false;
  };
}

abbrev project_page : NotionPage
project_page = record {
  parent_db = some "p1";
  title = "Acme";
  row = record { id = "x"; discipline = none };
}

abbrev notion : gb_automations.Webhooks.Notion.Answers
notion = record {
  get_page = λ id. returned project_page;
  oppgaver_for_project = λ id. returned (record { id = "o1"; discipline = some "Interiør" } ∷ []);
}

receive-unverified_run :
    (receive settings notion sync_nas (some "x") (Body.page (some "p") none)).requests ≡ []
unfolding verify_bearer compare_digest
receive-unverified_run =
    receive-unverified settings notion sync_nas (some "x") (Body.page (some "p") none)
      (λ h. ground (arith, h))

-- A valid token with a body that is no text
receive-automation_example :
    (receive settings notion send_faktura (some "Bearer k") not_text).status ≡ (
      if is_crash settings (some "Bearer k")
        || (is_signed settings (some "Bearer k") && is_broken not_text)
      then 500
      else 200)
receive-automation_example =
    receive-automation settings notion send_faktura (some "Bearer k") not_text refl

-- A token that is not ASCII
receive_of_foreign_token : (receive settings notion send_faktura (some "å") not_json).status ≡ 500
unfolding receive receive_verified verify_bearer compare_digest
receive_of_foreign_token = refl

initialize-buttons_run :
    (initialize_click settings "x" (returned project_page)).requests
    ≡ project_only (project_click settings notion sync_gmail "x" (returned project_page))
      ++ (project_only (project_click settings notion sync_nas "x" (returned project_page))
          ++ (project_only (project_click settings notion sync_frame "x" (returned project_page))
              ++ project_only
                  (project_click settings notion sync_toggl "x" (returned project_page))))
unfolding page_parented_to_oppgaver_db
initialize-buttons_run = initialize-buttons settings notion "x" project_page refl

abbrev hook : Hook
hook = record { frame_webhook_secret = "k"; hmac = λ k m. m; now = 1000 }

abbrev headers : Headers
headers = record { signature = some "v0=v0:900:body"; timestamp = some "900" }

abbrev frame_answers : gb_automations.Webhooks.Frame.Answers
frame_answers = record {
  owner = λ f. none;
  get_file = λ f. returned none;
  list_version_stack_children = λ f. returned [];
}

abbrev parse : String → Payload
parse body = event "comment.created" (some "c1")

comment_delivery :
    (frame_webhook hook parse frame_answers "body" headers).requests
    ≡ for_frame_comment_sync "c1" ∷ []
unfolding frame_webhook strip natural after_prefix compare_digest
comment_delivery = refl

frame_webhook-Signed_example : Signed hook "body" headers
unfolding frame_webhook strip natural after_prefix compare_digest
frame_webhook-Signed_example =
    frame_webhook-Signed hook parse frame_answers "body" headers
      (λ e. ground (arith, e, comment_delivery))
