-- ===== src/Webhooks/Frame.antt =====
-- The receiver of Frame.io's webhook: its signature and replay window, and the call that an event leads
-- to. The HMAC of the code's library, the clock, the JSON of the body and the answers of Frame.io and
-- of the cache are parameters.
pub mod Laws
use gb_automations.Base.{
  ℕ, ◌-◌, String, ◌<>◌, Bool, true, false, Option, none, some, List, [], ◌∷◌, ◌&&◌, ◌||◌, not, ltb,
  if◌then◌else◌, truthy, present, or_text, str_eq,
}
use gb_automations.Queue.Request.{
  Request, for_frame_comment_sync, for_frame_version_sync, for_frame_file_status_sync,
}
use gb_automations.Toggl.Durations.{natural}
use gb_automations.Toggl.Reconcile.{after_prefix}
use gb_automations.Worker.Engines.{Attempt, returned, raised}
use gb_automations.Webhooks.Digest.{compare_digest}
use gb_automations.Webhooks.Notion.{Response, answer}

pub record Hook : Type 0 where
  pub frame_webhook_secret : String
  -- the hex digest of HMAC-SHA256, by key and message
  pub hmac : String → String → String
  -- int(time.time())
  pub now : ℕ

pub record Headers : Type 0 where
  pub signature : Option String
  pub timestamp : Option String

-- |now - ts| > 5 minutes
abbrev pub is_outside : ℕ → ℕ → Bool
is_outside now ts = ltb 300 (now - ts) || ltb 300 (ts - now)

abbrev pub in_window : ℕ → Option ℕ → Bool
in_window now none = false
in_window now (some ts) = not (is_outside now ts)

-- signature_header[3:] against the digest, where the header has the prefix; compare_digest may raise.
unfoldable pub has_digest : Option String → String → Attempt Bool
has_digest none digest = returned false
has_digest (some s) digest = compare_digest s digest

-- A negative timestamp is taken as no number: both are refused, the clock being past the window.
unfoldable pub verify_frame_hmac : Hook → String → Headers → Attempt Bool
unfolding natural after_prefix has_digest
verify_frame_hmac hook body headers =
    let signature = or_text headers.signature "" in
    let timestamp = or_text headers.timestamp "" in
    if truthy hook.frame_webhook_secret
      && truthy signature
      && truthy timestamp
      && in_window hook.now (natural timestamp)
    then has_digest (after_prefix "v0=" signature)
        (hook.hmac hook.frame_webhook_secret ("v0:" <> timestamp <> ":" <> body))
    else returned false

-- The parsed body: type and resource.id
pub data Payload : Type 0 where
  not_json : Payload
  -- bytes that are no text, or JSON without the objects that are read, at which the handler raises
  broken : Payload
  event : String → Option String → Payload

pub record Answers : Type 0 where
  -- the deliverable with a placeholder file
  pub owner : String → Option String
  pub get_file : String → Attempt (Option String)
  pub list_version_stack_children : String → Attempt (List String)

abbrev pub owners : (String → Option String) → List String → List String
owners owner [] = []
owners owner (f ∷ fs) = elim (owner f) [ none ↦ owners owner fs | some p ↦ p ∷ owners owner fs ]

-- The deliverable among a list of rows; more than one row raises.
abbrev pub scalar_one_or_none : List String → Option (Option String)
scalar_one_or_none [] = some none
scalar_one_or_none (p ∷ []) = some (some p)
scalar_one_or_none (p ∷ q ∷ ps) = none

abbrev pub children_of : Attempt (List String) → List String
children_of (returned ids) = ids
children_of (raised e) = []

unfoldable pub siblings : Answers → String → List String
siblings answers file = elim (answers.get_file file) [
  | raised e ↦ []
  | returned none ↦ []
  | returned (some parent) ↦
      if truthy parent then children_of (answers.list_version_stack_children parent) else []
]

-- The deliverable of a file, by itself or by its stack.
unfoldable pub leveranse_of : Answers → String → Option (Option String)
unfolding siblings
leveranse_of answers file = elim (answers.owner file) [
  | some p ↦ some (some p)
  | none ↦ scalar_one_or_none (owners answers.owner (siblings answers file))
]

abbrev pub status_response : Option (Option String) → Response
status_response none = answer 500 []
status_response (some none) = answer 200 []
status_response (some (some p)) = answer 200 (for_frame_file_status_sync p "frame" ∷ [])

abbrev pub is_status_event : String → Bool
is_status_event type =
    str_eq type "file.status_changed" || str_eq type "file.metadata_value_changed"

abbrev pub is_comment_event : String → Bool
is_comment_event type = present_prefix (after_prefix "comment." type)
  where
    present_prefix : Option String → Bool
    present_prefix none = false
    present_prefix (some s) = true

-- What an event of a resource leads to; `id` is resource.id or the empty text.
unfoldable pub handle_event : Answers → String → String → Response
unfolding leveranse_of after_prefix
handle_event answers type id =
    if str_eq type "file.versioned"
    then (if truthy id then answer 200 (for_frame_version_sync id ∷ []) else answer 200 [])
    else if is_status_event type
    then (if truthy id then status_response (leveranse_of answers id) else answer 200 [])
    else if is_comment_event type && truthy id && not (str_eq type "comment.deleted")
    then answer 200 (for_frame_comment_sync id ∷ [])
    else answer 200 []

unfoldable pub handle_payload : Answers → Payload → Response
unfolding handle_event
handle_payload answers not_json = answer 400 []
handle_payload answers broken = answer 500 []
handle_payload answers (event type id) = handle_event answers type (or_text id "")

unfoldable pub handle_verified : (String → Payload) → Answers → String → Attempt Bool → Response
unfolding handle_payload
handle_verified parse answers body (raised e) = answer 500 []
handle_verified parse answers body (returned true) = handle_payload answers (parse body)
handle_verified parse answers body (returned false) = answer 401 []

unfoldable pub frame_webhook : Hook → (String → Payload) → Answers → String → Headers → Response
unfolding verify_frame_hmac handle_verified
frame_webhook hook parse answers body headers =
    handle_verified parse answers body (verify_frame_hmac hook body headers)
